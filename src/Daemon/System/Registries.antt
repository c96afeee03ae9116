-- ===== src/Daemon/System/Registries.antt =====
-- The inflight registry, the tokens and the channels of the queues through the handlers of connections,
-- starts, stops and messages.
use browser_skill.Prelude.{
  ℕ, ◌≡◌, refl, ◌∙◌, ◌⊎◌, inl, inr, Bool, true, false, Option, List, [], ◌∷◌, String, arith,
  Option-cases, Bool-cases, ◌==◌, if◌then◌else◌, is_some,
}
use browser_skill.Map.{lookup, remove}
use browser_skill.Protocol.Method.{Method-discrete}
use browser_skill.Protocol.Method
use browser_skill.Protocol.Handshake.{HandshakeCompat, Reason, evaluate_handshake_compat}
use browser_skill.Protocol.Frame.{Value, RequestFrame}
use browser_skill.Daemon.Browsers.{
  BrowserClient, Selected, remove_if_generation_matches, stale_browsers,
}
use browser_skill.Daemon.Queues.{remove_queue, reopen}
use browser_skill.Daemon.Inflight.{Snapshot}
use browser_skill.Daemon.State.{Daemon}
use browser_skill.Daemon.Start.{AgentWindowOptions, SessionStartParams, begin_start}
use browser_skill.Daemon.Stop.{SessionStopResult, Dispatched, end_stop, forget_session}
use browser_skill.Daemon.Cancel.{forward_snapshot, forward_cancel_to_browser}
use browser_skill.Daemon.Ws.{
  HandshakeParams, purge, connect, begin_connection, reply_handshake, disconnect, reap, reap_each,
  close_sink, protocol_version, min_compatible_protocol,
}
use browser_skill.Daemon.Ws.Purge.{purge_lem}

pub record IsQuiet (d d' : Daemon) : Type 0 where
  pub inflight : d'.tool_inflight ≡ d.tool_inflight
  pub aborts : d'.abort_registry ≡ d.abort_registry
  pub channels : d'.tool_queues.channel ≡ d.tool_queues.channel

pub same-IsQuiet : (d : Daemon) → IsQuiet d d
same-IsQuiet d = record { inflight = refl; aborts = refl; channels = refl }

pub then-IsQuiet : {d d' d'' : Daemon} → IsQuiet d d' → IsQuiet d' d'' → IsQuiet d d''
then-IsQuiet q r = record {
  inflight = r.inflight ∙ q.inflight;
  aborts = r.aborts ∙ q.aborts;
  channels = r.channels ∙ q.channels;
}

purge-IsQuiet : (id : String) (d : Daemon) → IsQuiet d (purge id d)
purge-IsQuiet id d =
    rw (purge_lem id d) (record { inflight = refl; aborts = refl; channels = refl })

connect-IsQuiet :
    (p : HandshakeParams) (skew : Bool) (at now : ℕ) (d : Daemon)
    → IsQuiet d (connect p skew at now d).0
unfolding connect
connect-IsQuiet p skew at now d =
    let q = purge-IsQuiet p.instance_id d in
    record { inflight = q.inflight; aborts = q.aborts; channels = q.channels }

verdict-cases :
    (v : HandshakeCompat)
    → (v ≡ HandshakeCompat.ok)
      ⊎ ((v ≡ HandshakeCompat.skew) ⊎ ((r : Reason) × (v ≡ HandshakeCompat.reject r)))
verdict-cases HandshakeCompat.ok = inl refl
verdict-cases HandshakeCompat.skew = inr (inl refl)
verdict-cases (HandshakeCompat.reject r) = inr (inr (r, refl))

-- A first frame connects its sender, or changes nothing.
pub begin_connection-cases :
    (decode : Value → Option HandshakeParams) (frame : RequestFrame) (at now : ℕ) (d : Daemon)
    → ((begin_connection decode frame at now d).0 ≡ d)
      ⊎ ((p : HandshakeParams) × (skew : Bool) × ((begin_connection decode frame at now d).0
            ≡ (connect p skew at now d).0))
unfolding begin_connection
begin_connection-cases decode frame at now d =
    elim (Method-discrete frame.method Method.system_handshake) [
      | no other ↦ inl (ground arith)
      | yes first ↦ elim (Option-cases frame.params) [
        | inl none_sent ↦ inl (ground arith)
        | inr (raw, sent) ↦ elim (Option-cases (decode raw)) [
          | inl bad ↦ inl (ground arith)
          | inr (p, good) ↦
              elim (verdict-cases (
                evaluate_handshake_compat p.protocol_version p.min_compatible_protocol
                  protocol_version min_compatible_protocol)) [
                    | inl same ↦ inr (p, false, ground arith)
                    | inr (inl drifts) ↦ inr (p, true, ground arith)
                    | inr (inr (r, rejects)) ↦ inl (ground arith)
                  ]
        ]
      ]
    ]

pub begin_connection-IsQuiet :
    (decode : Value → Option HandshakeParams) (frame : RequestFrame) (at now : ℕ) (d : Daemon)
    → IsQuiet d (begin_connection decode frame at now d).0
begin_connection-IsQuiet decode frame at now d =
    elim (begin_connection-cases decode frame at now d) [
      | inl e ↦ rw e (same-IsQuiet d)
      | inr (p, skew, e) ↦ rw e (connect-IsQuiet p skew at now d)
    ]

pub reply_handshake-IsQuiet :
    (written : Bool) (g : ℕ) (d : Daemon) → IsQuiet d (reply_handshake written g d).0
unfolding reply_handshake close_sink
reply_handshake-IsQuiet written g d = record {
  inflight = ground arith;
  aborts = ground arith;
  channels = ground arith;
}

-- What happens when a client is taken out, if it is the one of the given generation.
abbrev pub leave : String → ℕ → Daemon → Daemon
leave id g d =
    let (browsers, removed) = remove_if_generation_matches id g d.browsers in
    let d' = record d { browsers = browsers } in if is_some removed then purge id d' else d'

pub leave-cases :
    (id : String) (g : ℕ) (d : Daemon)
    → (leave id g d ≡ d) ⊎ (leave id g d ≡ purge id (record d { browsers = remove id d.browsers }))
unfolding remove_if_generation_matches
leave-cases id g d = elim (Option-cases (lookup id d.browsers)) [
  | inl e ↦ inl (ground arith)
  | inr (c, e) ↦ elim (Bool-cases (c.generation == g)) [
    | inl t ↦ inr (ground arith)
    | inr f ↦ inl (ground arith)
  ]
]

leave-IsQuiet : (id : String) (g : ℕ) (d : Daemon) → IsQuiet d (leave id g d)
leave-IsQuiet id g d = elim (leave-cases id g d) [
  | inl e ↦ rw e (same-IsQuiet d)
  | inr e ↦
      let q = purge-IsQuiet id (record d { browsers = remove id d.browsers }) in
      rw e (record { inflight = q.inflight; aborts = q.aborts; channels = q.channels })
]

pub disconnect-IsQuiet : (id : String) (g : ℕ) (d : Daemon) → IsQuiet d (disconnect id g d)
unfolding disconnect close_sink
disconnect-IsQuiet id g d =
    let q = leave-IsQuiet id g d in
    record { inflight = q.inflight; aborts = q.aborts; channels = q.channels }

reap_each-IsQuiet : (cs : List BrowserClient) (d : Daemon) → IsQuiet d (reap_each cs d)
unfolding reap_each
reap_each-IsQuiet [] d = same-IsQuiet d
reap_each-IsQuiet (c ∷ cs) d =
    then-IsQuiet (leave-IsQuiet c.id c.generation d)
      (reap_each-IsQuiet cs (leave c.id c.generation d))

pub reap-IsQuiet : (timeout now : ℕ) (d : Daemon) → IsQuiet d (reap timeout now d)
unfolding reap
reap-IsQuiet timeout now d = reap_each-IsQuiet (stale_browsers d.cell timeout now d.browsers) d

pub begin_start-IsQuiet :
    (encode : SessionStartParams → Value) (window : AgentWindowOptions) (selected : Selected)
    (draws : List String) (now_ms now : ℕ) (rpc_id : String) (d : Daemon)
    → IsQuiet d (begin_start encode window selected draws now_ms now rpc_id d).0
unfolding begin_start
begin_start-IsQuiet encode window (Selected.err x) draws now_ms now rpc_id d = same-IsQuiet d
begin_start-IsQuiet encode window (Selected.ok c) draws now_ms now rpc_id d = record {
  inflight = ground arith;
  aborts = ground arith;
  channels = ground arith;
}

pub forget_session-IsQuiet : (sid : String) (d : Daemon) → IsQuiet d (forget_session sid d).0
unfolding forget_session remove_queue
forget_session-IsQuiet sid d = record {
  inflight = ground arith;
  aborts = ground arith;
  channels = ground arith;
}

pub end_stop-IsQuiet :
    (decode : Value → Option SessionStopResult) (sid : String) (r : Dispatched) (d : Daemon)
    → IsQuiet d (end_stop decode sid r d).0
unfolding end_stop remove_queue reopen
end_stop-IsQuiet decode sid r d = record {
  inflight = ground arith;
  aborts = ground arith;
  channels = ground arith;
}

pub forward_snapshot-IsQuiet : (s : Snapshot) (d : Daemon) → IsQuiet d (forward_snapshot s d)
unfolding forward_snapshot forward_cancel_to_browser
forward_snapshot-IsQuiet s d = record {
  inflight = ground arith;
  aborts = ground arith;
  channels = ground arith;
}
