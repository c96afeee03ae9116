-- ===== src/Daemon/Stop.antt =====
-- Stopping and forgetting a session: `stop_session` and `forget_session` in
-- crates/bsk-cli/src/daemon/sessions.rs. `stop_session` is cut at its await.
pub mod Outcomes
use browser_skill.Prelude.{
  ℕ, Bool, true, false, Option, none, some, List, [], ◌∷◌, String, if◌then◌else◌, is_some,
}
use browser_skill.Map.{lookup}
use browser_skill.Protocol.Method.{tool_session_stop}
use browser_skill.Protocol.Frame.{session_id_object, Value, RpcError, ErrorCode}
use browser_skill.Daemon.Browsers
use browser_skill.Daemon.Sessions.{remove_session, get}
use browser_skill.Daemon.Queues.{
  ToolJob, DispatchError, waiting, refused, submit_closing, reopen, remove_queue,
}
use browser_skill.Daemon.Interrupts.{drop_session}
use browser_skill.Daemon.State.{Daemon}
use browser_skill.Daemon.Start.{protocol_failure}

-- Tab ids are opaque numbers.
pub record ReturnFailure : Type 0 where
  pub tab_id : ℕ
  pub code : ErrorCode
  pub message : String

pub record SessionStopResult : Type 0 where
  pub returned_tab_ids : List ℕ
  pub return_failures : List ReturnFailure

pub data StopError : Type 0 where
  stop_not_found stopping stop_busy browser_gone stop_timeout stop_closed : StopError
  stop_extension_error : RpcError → StopError
  failed_returns : SessionStopResult → StopError

pub data Stopping : Type 0 where
  stop_failed : StopError → Stopping
  -- The channel whose worker will respond.
  stop_waiting : ℕ → Stopping

pub data Stopped : Type 0 where
  stopped : SessionStopResult → Stopped
  not_stopped : StopError → Stopped

-- `drop_session_local`.
drop_session_local : String → Daemon → Daemon
drop_session_local sid d = record d {
  tool_queues = (remove_queue sid d.tool_queues).0;
  session_interrupts = drop_session sid d.session_interrupts;
}

forget_at : String → Daemon → Daemon
unfolding drop_session_local
forget_at sid d = drop_session_local sid (record d { sessions = (remove_session sid d.sessions).0 })

reopened : String → StopError → Daemon → Daemon × Stopped
reopened sid e d = (record d { tool_queues = (reopen sid d.tool_queues).0 }, not_stopped e)

-- How a failed dispatch of the stop request ends.
stop_error : String → DispatchError → Daemon → Daemon × Stopped
unfolding reopened
stop_error sid (DispatchError.rpc e) d = elim e.code [
  | ErrorCode.not_found ↦
      (forget_at sid d, stopped (record { returned_tab_ids = []; return_failures = [] }))
  | _ ↦ reopened sid (stop_extension_error e) d
]
stop_error sid DispatchError.session_not_found d = (d, not_stopped stop_not_found)
stop_error sid DispatchError.session_stopping d = (d, not_stopped stopping)
stop_error sid DispatchError.session_busy d = (d, not_stopped stop_busy)
stop_error sid DispatchError.timed_out d = reopened sid stop_timeout d
stop_error sid DispatchError.queue_closed d = reopened sid stop_closed d
stop_error sid DispatchError.queue_full d = reopened sid stop_closed d

unfoldable pub refusal_of : DispatchError → StopError
refusal_of DispatchError.session_stopping = stopping
refusal_of DispatchError.session_busy = stop_busy
refusal_of _ = stop_not_found

stop_job : String → ℕ → ToolJob
stop_job sid limit = record {
  method = tool_session_stop;
  params = session_id_object sid;
  timeout = limit;
  inflight = none;
  session_id = sid;
}

-- Up to the await of `dispatch_after_closing`, whose three refusals are answered at once.
unfoldable pub begin_stop : String → ℕ → Daemon → Daemon × Stopping
unfolding stop_job refusal_of get
begin_stop sid limit d = elim (get sid d.sessions) [
  | none ↦ (d, stop_failed stop_not_found)
  | some session ↦
      if is_some (lookup session.browser_id d.browsers)
      then (let (q, answer) = submit_closing sid (stop_job sid limit) d.tool_queues in
          elim answer [
            | waiting a ↦ (record d { tool_queues = q }, stop_waiting a)
            | refused e ↦ (record d { tool_queues = q }, stop_failed (refusal_of e))
          ])
      else (d, stop_failed browser_gone)
]

-- The result of the awaited dispatch.
pub data Dispatched : Type 0 where
  answered : Value → Dispatched
  dispatch_failed : DispatchError → Dispatched

stop_result : String → SessionStopResult → List ReturnFailure → Daemon → Daemon × Stopped
unfolding forget_at reopened
stop_result sid r [] d = (forget_at sid d, stopped r)
stop_result sid r (f ∷ fs) d = reopened sid (failed_returns r) d

unfoldable pub end_stop :
    (Value → Option SessionStopResult) → String → Dispatched → Daemon → Daemon × Stopped
unfolding stop_result stop_error protocol_failure
end_stop decode sid (answered v) d = elim (decode v) [
  | none ↦
      (d, not_stopped (stop_extension_error (protocol_failure "invalid tool.session_stop payload")))
  | some r ↦ stop_result sid r r.return_failures d
]
end_stop decode sid (dispatch_failed e) d = stop_error sid e d

unfoldable pub forget_session : String → Daemon → Daemon × Bool
unfolding drop_session_local
forget_session sid d =
    let (sessions, removed) = remove_session sid d.sessions in
    if is_some removed
    then (drop_session_local sid (record d { sessions = sessions }), true)
    else (record d { sessions = sessions }, false)
