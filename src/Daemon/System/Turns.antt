-- ===== src/Daemon/System/Turns.antt =====
-- The invariants of the registries through the handlers that change more than one of them.
use browser_skill.Prelude.{
  ℕ, ◌≡◌, ◌⊎◌, inl, inr, Option, none, String, arith, Option-cases, Bool-cases, subst, sym, is_some,
  ltb, ◌==◌,
}
use browser_skill.Map.{lookup}
use browser_skill.Protocol.Method.{Method}
use browser_skill.Protocol.Frame.{session_id_object, Value}
use browser_skill.Daemon.Inflight
use browser_skill.Daemon.Inflight.{cancel_session}
use browser_skill.Daemon.Inflight.Cancels.{cancel_session-IsSound, cancel-IsSound}
use browser_skill.Daemon.Abort
use browser_skill.Daemon.Abort.Laws
use browser_skill.Daemon.Queues
use browser_skill.Daemon.Queues.{ToolJob, end_send_at, recv_at, finish_at}
use browser_skill.Daemon.Queues.Exclusive.{
  AllExclusive, spawn-AllExclusive, submit_closing-AllExclusive,
}
use browser_skill.Daemon.State.{Daemon}
use browser_skill.Daemon.Times.{WaitEnd, begin_wait_ms, end_wait_ms}
use browser_skill.Daemon.Forward.{WaitOutcome, end_forward}
use browser_skill.Daemon.Start.{Awaited, Started, started, not_started, end_start}
use browser_skill.Daemon.Stop.{begin_stop}
use browser_skill.Daemon.Cancel.{handle_cancel}
use browser_skill.Daemon.System.Registries.{IsQuiet, forward_snapshot-IsQuiet}
use browser_skill.Daemon.System.Cancelling.{IsCancelling}
use browser_skill.Daemon.System.Peopled.{IsPeopled, calm-IsPeopled}
use browser_skill.Daemon.System.Messages.{forward_snapshot-IsCalm, handle_cancel-IsPeopled}
use browser_skill.Daemon.System.Calls.{IsWellFormed}

pub quiet-IsWellFormed :
    {d d' : Daemon} → IsQuiet d d' → IsPeopled d' → IsWellFormed d → IsWellFormed d'
quiet-IsWellFormed q people w = record {
  people = people;
  inflight = rw q.inflight w.inflight;
  aborts = rw q.aborts w.aborts;
  queues = rw q.channels w.queues;
}

pub cancelling-IsWellFormed :
    {d d' : Daemon} → IsCancelling d d' → IsPeopled d' → IsWellFormed d → IsWellFormed d'
cancelling-IsWellFormed (inl q) people w = quiet-IsWellFormed q people w
cancelling-IsWellFormed {d} (inr (sid, q)) people w = record {
  people = people;
  inflight = rw q.inflight (cancel_session-IsSound sid d.tool_inflight w.inflight);
  aborts = rw q.aborts w.aborts;
  queues = rw q.channels w.queues;
}

-- A start that succeeds spawns a queue, one that fails leaves the queues.
end_start-spawn :
    (decode : Value → Option (Option ℕ)) (g : ℕ) (sid rpc_id : String) (how : Awaited) (d : Daemon)
    → (end_start decode g sid rpc_id how d).0.tool_queues
      ≡ elim (end_start decode g sid rpc_id how d).1 [
        | started s ↦ Queues.spawn sid d.tool_queues
        | not_started e ↦ d.tool_queues
      ]
unfolding end_start
end_start-spawn decode g sid rpc_id how d = ground arith

pub end_start-queues :
    (decode : Value → Option (Option ℕ)) (g : ℕ) (sid rpc_id : String) (how : Awaited) (d : Daemon)
    → AllExclusive d.tool_queues
    → AllExclusive (end_start decode g sid rpc_id how d).0.tool_queues
end_start-queues decode g sid rpc_id how d h =
    subst AllExclusive (sym (end_start-spawn decode g sid rpc_id how d))
      (either (end_start decode g sid rpc_id how d).1)
  where
    either :
        (s : Started)
        → AllExclusive
            (elim s [ started x ↦ Queues.spawn sid d.tool_queues | not_started e ↦ d.tool_queues ])
    either (started x) = spawn-AllExclusive sid d.tool_queues h
    either (not_started e) = h

pub end_start-registries :
    (decode : Value → Option (Option ℕ)) (g : ℕ) (sid rpc_id : String) (how : Awaited) (d : Daemon)
    → ((end_start decode g sid rpc_id how d).0.tool_inflight ≡ d.tool_inflight)
      × ((end_start decode g sid rpc_id how d).0.abort_registry ≡ d.abort_registry)
unfolding end_start
end_start-registries decode g sid rpc_id how d = (ground arith, ground arith)

-- A stop that finds its session and its browser submits one job, any other leaves the queues.
begin_stop-cases :
    (sid : String) (limit : ℕ) (d : Daemon)
    → ((begin_stop sid limit d).0.tool_queues ≡ d.tool_queues)
      ⊎ ((job : ToolJob) × ((begin_stop sid limit d).0.tool_queues
            ≡ (Queues.submit_closing sid job d.tool_queues).0))
unfolding begin_stop
begin_stop-cases sid limit d = elim (Option-cases (lookup sid d.sessions.inner)) [
  | inl absent ↦ inl (ground arith)
  | inr (s, present) ↦ elim (Bool-cases (is_some (lookup s.browser_id d.browsers))) [
    | inl online ↦ inr (
      record {
        method = Method.tool_session_stop;
        params = session_id_object sid;
        timeout = limit;
        inflight = none;
        session_id = sid;
      },
      ground arith,
    )
    | inr gone ↦ inl (ground arith)
  ]
]

pub begin_stop-queues :
    (sid : String) (limit : ℕ) (d : Daemon)
    → AllExclusive d.tool_queues
    → AllExclusive (begin_stop sid limit d).0.tool_queues
begin_stop-queues sid limit d h = elim (begin_stop-cases sid limit d) [
  | inl same ↦ subst AllExclusive (sym same) h
  | inr (job, submitted) ↦
      subst AllExclusive (sym submitted) (submit_closing-AllExclusive sid job d.tool_queues h)
]

pub begin_stop-registries :
    (sid : String) (limit : ℕ) (d : Daemon)
    → ((begin_stop sid limit d).0.tool_inflight ≡ d.tool_inflight)
      × ((begin_stop sid limit d).0.abort_registry ≡ d.abort_registry)
unfolding begin_stop
begin_stop-registries sid limit d = (ground arith, ground arith)

pub end_forward-IsWellFormed :
    (g : ℕ) (rpc_id : String) (job : ToolJob) (how : WaitOutcome) (d : Daemon)
    → IsWellFormed d
    → IsWellFormed (end_forward g rpc_id job how d).0
unfolding end_forward
end_forward-IsWellFormed g rpc_id job (WaitOutcome.response f) d w = w
end_forward-IsWellFormed g rpc_id job (WaitOutcome.cancelled_after_response f) d w = w
end_forward-IsWellFormed g rpc_id job WaitOutcome.cleanup_timeout d w = record {
  people = w.people;
  inflight = w.inflight;
  aborts = w.aborts;
  queues = w.queues;
}
end_forward-IsWellFormed g rpc_id job WaitOutcome.waiter_closed d w = record {
  people = w.people;
  inflight = w.inflight;
  aborts = w.aborts;
  queues = w.queues;
}
end_forward-IsWellFormed g rpc_id job WaitOutcome.timeout d w = record {
  people = w.people;
  inflight = w.inflight;
  aborts = w.aborts;
  queues = w.queues;
}

begin_wait_ms-cases :
    (rpc_id : String) (duration : ℕ) (r : Abort.Registry)
    → ((begin_wait_ms rpc_id duration r).0 ≡ r)
      ⊎ ((begin_wait_ms rpc_id duration r).0 ≡ (Abort.register rpc_id r).0)
unfolding begin_wait_ms
begin_wait_ms-cases rpc_id duration r = elim (Bool-cases (ltb 300000 duration)) [
  | inl long ↦ inl (ground arith)
  | inr short ↦ elim (Bool-cases (duration == 0)) [
    | inl empty ↦ inl (ground arith)
    | inr sleeps ↦ inr (ground arith)
  ]
]

pub begin_wait_ms-IsSound :
    (rpc_id : String) (duration : ℕ) (r : Abort.Registry)
    → Abort.Laws.IsSound r
    → Abort.Laws.IsSound (begin_wait_ms rpc_id duration r).0
begin_wait_ms-IsSound rpc_id duration r s = elim (begin_wait_ms-cases rpc_id duration r) [
  | inl same ↦ rw same s
  | inr registered ↦ rw registered (Abort.Laws.register-IsSound rpc_id r s)
]

pub end_wait_ms-IsSound :
    (rpc_id : String) (t duration : ℕ) (how : WaitEnd) (r : Abort.Registry)
    → Abort.Laws.IsSound r
    → Abort.Laws.IsSound (end_wait_ms rpc_id t duration how r).0
unfolding end_wait_ms
end_wait_ms-IsSound rpc_id t duration WaitEnd.elapsed r s =
    Abort.Laws.unregister-IsSound rpc_id t r s
end_wait_ms-IsSound rpc_id t duration WaitEnd.cancelled r s =
    Abort.Laws.unregister-IsSound rpc_id t r s

pub handle_cancel-IsWellFormed :
    (rpc_id : String) (d : Daemon) → IsWellFormed d → IsWellFormed (handle_cancel rpc_id d).0
unfolding handle_cancel
handle_cancel-IsWellFormed rpc_id d w =
    let people = handle_cancel-IsPeopled rpc_id d w.people in
    let d' = record d { abort_registry = (Abort.cancel rpc_id d.abort_registry).0 } in
    let tripped : IsWellFormed d' = record {
      people = w.people;
      inflight = w.inflight;
      aborts = Abort.Laws.cancel-IsSound rpc_id d.abort_registry w.aborts;
      queues = w.queues;
    } in
    let d'' = record d' { tool_inflight = (Inflight.cancel rpc_id d.tool_inflight).0 } in
    let marked : IsWellFormed d'' = record {
      people = w.people;
      inflight = cancel-IsSound rpc_id d.tool_inflight w.inflight;
      aborts = tripped.aborts;
      queues = w.queues;
    } in
    elim (Bool-cases (Abort.cancel rpc_id d.abort_registry).1) [
      | inl local ↦ rw (local, handle_cancel) tripped
      | inr remote ↦ elim (Option-cases (Inflight.cancel rpc_id d.tool_inflight).1) [
        | inl unknown ↦ rw (remote, unknown, handle_cancel) marked
        | inr (snap, known) ↦
            rw (remote, known, handle_cancel)
              (quiet-IsWellFormed (forward_snapshot-IsQuiet snap d'')
                (calm-IsPeopled (forward_snapshot-IsCalm snap d'') w.people) marked)
      ]
    ]
