-- ===== src/Daemon/System/Cancelling.antt =====
-- The same through the messages of an extension, which may cancel the calls of a session.
use browser_skill.Prelude.{
  ℕ, refl, ◌⊎◌, inl, inr, Option, none, some, List, [], ◌∷◌, String, Option-cases, Bool-cases,
}
use browser_skill.Protocol.Frame.{Value, Frame, EventKind, request, response, event}
use browser_skill.Daemon.Browsers.{touch}
use browser_skill.Daemon.Inflight.{Snapshot, cancel_session}
use browser_skill.Daemon.State.{Daemon, with_cell}
use browser_skill.Daemon.Cancel.{forward_snapshot}
use browser_skill.Daemon.Ws.{
  forward_each, handle_session_window_closed, handle_session_user_interrupt, handle_inbound_frame,
  pump_inbound, Message, extract_session_id, is_foreign,
}
use browser_skill.Daemon.System.Registries.{
  IsQuiet, same-IsQuiet, then-IsQuiet, forget_session-IsQuiet, forward_snapshot-IsQuiet,
}

forward_each-IsQuiet : (ss : List Snapshot) (d : Daemon) → IsQuiet d (forward_each ss d)
unfolding forward_each
forward_each-IsQuiet [] d = same-IsQuiet d
forward_each-IsQuiet (s ∷ ss) d =
    then-IsQuiet (forward_snapshot-IsQuiet s d) (forward_each-IsQuiet ss (forward_snapshot s d))

window_closed-IsQuiet :
    (view : Value → Option String) (sender : String) (payload : Value) (d : Daemon)
    → IsQuiet d (handle_session_window_closed view sender payload d)
unfolding handle_session_window_closed
window_closed-IsQuiet view sender payload d = elim (Option-cases (view payload)) [
  | inl unnamed ↦ rw (unnamed, handle_session_window_closed) (same-IsQuiet d)
  | inr (sid, named) ↦ elim (Bool-cases (is_foreign sender sid d)) [
    | inl foreign ↦ rw (named, foreign, handle_session_window_closed) (same-IsQuiet d)
    | inr own ↦ rw (named, own, handle_session_window_closed) (forget_session-IsQuiet sid d)
  ]
]

-- Nothing but the calls of one session has been cancelled.
abbrev pub IsCancelling : Daemon → Daemon → Type 0
IsCancelling d d' =
    IsQuiet d d'
    ⊎ ((sid : String) × IsQuiet
          (record d { tool_inflight = (cancel_session sid d.tool_inflight).0 }) d')

user_interrupt-IsCancelling :
    (view : Value → Option String) (sender : String) (payload : Value) (d : Daemon)
    → IsCancelling d (handle_session_user_interrupt view sender payload d)
unfolding handle_session_user_interrupt
user_interrupt-IsCancelling view sender payload d =
    elim (Option-cases (extract_session_id view payload)) [
      | inl unnamed ↦ inl (rw (unnamed, handle_session_user_interrupt) (same-IsQuiet d))
      | inr (sid, named) ↦ elim (Bool-cases (is_foreign sender sid d)) [
        | inl foreign ↦ inl (rw (named, foreign, handle_session_user_interrupt) (same-IsQuiet d))
        | inr own ↦
            let (registry, snapshots) = cancel_session sid d.tool_inflight in
            let q = forward_each-IsQuiet snapshots (record d { tool_inflight = registry }) in
            inr (
              sid,
              rw (named, own, handle_session_user_interrupt)
                  (record { inflight = q.inflight; aborts = q.aborts; channels = q.channels }),
            )
      ]
    ]

inbound-IsCancelling :
    (view : Value → Option String) (sender : String) (g : ℕ) (f : Frame) (d : Daemon)
    → IsCancelling d (handle_inbound_frame view sender g f d)
unfolding handle_inbound_frame
inbound-IsCancelling view sender g (response f) d =
    inl (record { inflight = refl; aborts = refl; channels = refl })
inbound-IsCancelling view sender g (request f) d = inl (same-IsQuiet d)
inbound-IsCancelling view sender g (event e) d =
    elim e.event
      as (λ k. IsCancelling d (
        handle_inbound_frame view sender g (event (record { event = k; payload = e.payload })) d)) [
          | EventKind.system_heartbeat ↦
              inl (record { inflight = refl; aborts = refl; channels = refl })
          | EventKind.session_window_closed ↦ inl (window_closed-IsQuiet view sender e.payload d)
          | EventKind.session_user_interrupt ↦ user_interrupt-IsCancelling view sender e.payload d
          | EventKind.session_activity ↦ inl (same-IsQuiet d)
          | EventKind.browser_disconnected ↦ inl (same-IsQuiet d)
          | EventKind.browser_connected ↦ inl (same-IsQuiet d)
        ]

-- A message from the socket may cancel the calls of one session.
pub pump_inbound-IsCancelling :
    (view : Value → Option String) (sender : String) (g now : ℕ) (m : Message) (d : Daemon)
    → IsCancelling d (pump_inbound view sender g now m d)
unfolding pump_inbound
pump_inbound-IsCancelling view sender g now (Message.text none) d =
    inl (record { inflight = refl; aborts = refl; channels = refl })
pump_inbound-IsCancelling view sender g now (Message.text (some f)) d =
    elim (inbound-IsCancelling view sender g f (with_cell g (touch now) d)) [
      | inl q ↦ inl (record { inflight = q.inflight; aborts = q.aborts; channels = q.channels })
      | inr (sid, q) ↦
          inr (sid, record { inflight = q.inflight; aborts = q.aborts; channels = q.channels })
    ]
pump_inbound-IsCancelling view sender g now Message.binary d = inl (same-IsQuiet d)
pump_inbound-IsCancelling view sender g now Message.ping d =
    inl (record { inflight = refl; aborts = refl; channels = refl })
pump_inbound-IsCancelling view sender g now Message.pong d =
    inl (record { inflight = refl; aborts = refl; channels = refl })
pump_inbound-IsCancelling view sender g now Message.raw d = inl (same-IsQuiet d)
