-- ===== src/Daemon/System/Messages.antt =====
-- The same through the messages of an extension and through a cancel.
use browser_skill.Prelude.{
  ℕ, inl, inr, Option, none, some, List, [], ◌∷◌, String, arith, Option-cases, Bool-cases,
}
use browser_skill.Protocol.Frame.{Value, Frame, EventKind, request, response, event}
use browser_skill.Daemon.Browsers.{
  BrowserClient, Registry, Selected, SelectError, select, stale_browsers,
}
use browser_skill.Daemon.Browsers
use browser_skill.Daemon.Inflight.{Snapshot, cancel_session}
use browser_skill.Daemon.State.{Daemon, with_cell}
use browser_skill.Daemon.Cancel.{handle_cancel, forward_snapshot, forward_cancel_to_browser}
use browser_skill.Daemon.Ws.{
  Message, forward_each, handle_session_window_closed, handle_session_user_interrupt,
  handle_inbound_frame, pump_inbound, extract_session_id, is_foreign,
}
use browser_skill.Daemon.System.Peopled.{IsPeopled, IsCalm, calm-IsPeopled}
use browser_skill.Daemon.System.Lifecycles.{forget_session-IsPeopled}

pub forward_snapshot-IsCalm : (s : Snapshot) (d : Daemon) → IsCalm d (forward_snapshot s d)
unfolding forward_snapshot forward_cancel_to_browser
forward_snapshot-IsCalm s d = record {
  browsers = ground arith;
  next_generation = ground arith;
  sessions = ground arith;
}

forward_each-IsPeopled :
    (ss : List Snapshot) (d : Daemon) → IsPeopled d → IsPeopled (forward_each ss d)
unfolding forward_each
forward_each-IsPeopled [] d m = m
forward_each-IsPeopled (s ∷ ss) d m =
    forward_each-IsPeopled ss (forward_snapshot s d)
      (calm-IsPeopled (forward_snapshot-IsCalm s d) m)

handle_cancel-IsCalm : (rpc_id : String) (d : Daemon) → IsCalm d (handle_cancel rpc_id d).0
unfolding handle_cancel forward_cancel_to_browser
handle_cancel-IsCalm rpc_id d = record {
  browsers = ground arith;
  next_generation = ground arith;
  sessions = ground arith;
}

pub handle_cancel-IsPeopled :
    (rpc_id : String) (d : Daemon) → IsPeopled d → IsPeopled (handle_cancel rpc_id d).0
handle_cancel-IsPeopled rpc_id d m = calm-IsPeopled (handle_cancel-IsCalm rpc_id d) m

window_closed-IsPeopled :
    (view : Value → Option String) (sender : String) (payload : Value) (d : Daemon)
    → IsPeopled d
    → IsPeopled (handle_session_window_closed view sender payload d)
unfolding handle_session_window_closed
window_closed-IsPeopled view sender payload d m = elim (Option-cases (view payload)) [
  | inl unnamed ↦ rw (unnamed, handle_session_window_closed) m
  | inr (sid, named) ↦ elim (Bool-cases (is_foreign sender sid d)) [
    | inl foreign ↦ rw (named, foreign, handle_session_window_closed) m
    | inr own ↦ rw (named, own, handle_session_window_closed) (forget_session-IsPeopled sid d m)
  ]
]

user_interrupt-IsPeopled :
    (view : Value → Option String) (sender : String) (payload : Value) (d : Daemon)
    → IsPeopled d
    → IsPeopled (handle_session_user_interrupt view sender payload d)
unfolding handle_session_user_interrupt
user_interrupt-IsPeopled view sender payload d m =
    elim (Option-cases (extract_session_id view payload)) [
      | inl unnamed ↦ rw (unnamed, handle_session_user_interrupt) m
      | inr (sid, named) ↦ elim (Bool-cases (is_foreign sender sid d)) [
        | inl foreign ↦ rw (named, foreign, handle_session_user_interrupt) m
        | inr own ↦
            let (registry, snapshots) = cancel_session sid d.tool_inflight in
            rw (named, own, handle_session_user_interrupt)
              (forward_each-IsPeopled snapshots (record d { tool_inflight = registry }) m)
      ]
    ]

inbound-IsPeopled :
    (view : Value → Option String) (sender : String) (g : ℕ) (f : Frame) (d : Daemon)
    → IsPeopled d
    → IsPeopled (handle_inbound_frame view sender g f d)
unfolding handle_inbound_frame
inbound-IsPeopled view sender g (response f) d m = m
inbound-IsPeopled view sender g (request f) d m = m
inbound-IsPeopled view sender g (event e) d m =
    elim e.event
      as (λ k. IsPeopled (
        handle_inbound_frame view sender g (event (record { event = k; payload = e.payload })) d)) [
          | EventKind.system_heartbeat ↦ m
          | EventKind.session_window_closed ↦ window_closed-IsPeopled view sender e.payload d m
          | EventKind.session_user_interrupt ↦ user_interrupt-IsPeopled view sender e.payload d m
          | EventKind.session_activity ↦ m
          | EventKind.browser_disconnected ↦ m
          | EventKind.browser_connected ↦ m
        ]

pub pump_inbound-IsPeopled :
    (view : Value → Option String) (sender : String) (g now : ℕ) (m : Message) (d : Daemon)
    → IsPeopled d
    → IsPeopled (pump_inbound view sender g now m d)
unfolding pump_inbound
pump_inbound-IsPeopled view sender g now (Message.text none) d m = m
pump_inbound-IsPeopled view sender g now (Message.text (some f)) d m =
    inbound-IsPeopled view sender g f (with_cell g (Browsers.touch now) d) m
pump_inbound-IsPeopled view sender g now Message.binary d m = m
pump_inbound-IsPeopled view sender g now Message.ping d m = m
pump_inbound-IsPeopled view sender g now Message.pong d m = m
pump_inbound-IsPeopled view sender g now Message.raw d m = m
