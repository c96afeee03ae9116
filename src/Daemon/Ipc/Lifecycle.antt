-- ===== src/Daemon/Ipc/Lifecycle.antt =====
-- What the CLI peer is told of a start, a stop and the stop of all sessions:
-- crates/bsk-cli/src/daemon/ipc.rs, with the messages of crates/bsk-cli/src/daemon/sessions.rs.
pub mod Accounts
use Prim.Native.String.{◌++◌ as str_append}
use browser_skill.Prelude.{
  ℕ, Bool, true, false, Option, none, some, List, [], ◌∷◌, ◌++◌, map, String, length,
}
use browser_skill.Protocol.Json.{Value, Values, nil, item, string, array, object, end, field}
use browser_skill.Protocol.Frame.{RpcError, ErrorCode}
use browser_skill.Daemon.Sessions.{Session, Sessions}
use browser_skill.Daemon.Queues.{DispatchError, into_rpc}
use browser_skill.Daemon.Times.{invalid}
use browser_skill.Daemon.Start.{
  StartError, no_browser_connected, multiple_browsers_online, browser_not_found,
  ambiguous_browser_label, id_exhausted, start_timeout, transport_closed, extension_error,
}
use browser_skill.Daemon.Stop.{
  StopError, stop_not_found, stopping, stop_busy, browser_gone, stop_timeout, stop_closed,
  stop_extension_error, failed_returns, SessionStopResult, ReturnFailure, Stopped, stopped,
  not_stopped,
}

-- The size of the window, if it is asked for as a pair.
pub data WindowSize : Type 0 where
  size : Option (ℕ × ℕ) → WindowSize
  bad_size : RpcError → WindowSize

unfoldable pub window_size : Option ℕ → Option ℕ → WindowSize
unfolding invalid
window_size (some w) (some h) = size (some (w, h))
window_size none none = size none
window_size (some w) none = bad_size (invalid "width and height must be given together")
window_size none (some h) = bad_size (invalid "width and height must be given together")

unfoldable pub start_error_code : StartError → ErrorCode
start_error_code no_browser_connected = ErrorCode.no_browser_connected
start_error_code multiple_browsers_online = ErrorCode.multiple_browsers_online
start_error_code browser_not_found = ErrorCode.not_found
start_error_code (ambiguous_browser_label label ids) = ErrorCode.invalid_params
start_error_code id_exhausted = ErrorCode.protocol_error
start_error_code start_timeout = ErrorCode.timeout
start_error_code transport_closed = ErrorCode.protocol_error
start_error_code (extension_error e) = e.code

strings : List String → Values
strings [] = nil
strings (s ∷ ss) = item (string s) (strings ss)

-- `show` displays a number, `debug` an error of the extension, and `browsers` is the list of the
-- connected browsers that a start finds.
module _ (show : ℕ → String) (debug : RpcError → String) (browsers : Value) where
  start_error_message : StartError → String
  start_error_message no_browser_connected = "no browser is currently connected"
  start_error_message multiple_browsers_online =
      "more than one browser is online — pass --browser <id-or-label>"
  start_error_message browser_not_found = "requested browser is not connected"
  start_error_message (ambiguous_browser_label label ids) = str_append "label '" (
      str_append label
        (str_append "' matches " (str_append (show (length ids)) " connected browsers")))
  start_error_message id_exhausted = "could not allocate a fresh session id after many tries"
  start_error_message start_timeout = "session creation timed out waiting for extension"
  start_error_message (extension_error e) =
      str_append "extension rejected tool.session_start: " (debug e)
  start_error_message transport_closed = "transport closed while waiting for extension response"

  start_error_data : StartError → Option Value
  unfolding strings
  start_error_data multiple_browsers_online = some (object (field "browsers" browsers end))
  start_error_data (ambiguous_browser_label label ids) =
      some (object (field "instance_ids" (array (strings ids)) (field "label" (string label) end)))
  start_error_data _ = none

  unfoldable pub map_start_error : StartError → RpcError
  unfolding start_error_message start_error_data start_error_code
  map_start_error e = record {
    code = start_error_code e;
    message = start_error_message e;
    error_data = start_error_data e;
  }

-- An error of a stop, with `into_rpc` for a busy session.
unfoldable pub stop_error_code : StopError → ErrorCode
stop_error_code stop_not_found = ErrorCode.not_found
stop_error_code stopping = ErrorCode.timeout
stop_error_code stop_busy = (into_rpc DispatchError.session_busy).code
stop_error_code browser_gone = ErrorCode.not_found
stop_error_code stop_timeout = ErrorCode.timeout
stop_error_code stop_closed = ErrorCode.protocol_error
stop_error_code (stop_extension_error e) = e.code
stop_error_code (failed_returns r) = ErrorCode.cdp_failed

pub record StopFailure : Type 0 where
  pub session_id : String
  pub code : ErrorCode
  pub message : String

-- `CliSessionStopResult`
pub record StopReport : Type 0 where
  pub stopped_ids : List String
  pub failed : List StopFailure
  pub returned_tab_ids : List ℕ
  pub return_failures : List ReturnFailure

-- The answer to the stop of one session.
pub data StopAnswer : Type 0 where
  report : StopReport → StopAnswer
  stop_refused : RpcError → StopAnswer

module _ (show : ℕ → String) (debug : RpcError → String) where
  stop_error_message : StopError → String
  stop_error_message stop_not_found = "session is not registered"
  stop_error_message stopping = "session stop is already in progress"
  stop_error_message stop_busy = "session already has an unfinished command"
  stop_error_message browser_gone = "owning browser is no longer connected"
  stop_error_message stop_timeout = "session stop timed out waiting for extension"
  stop_error_message (stop_extension_error e) =
      str_append "extension rejected tool.session_stop: " (debug e)
  stop_error_message (failed_returns r) = "failed to return borrowed tabs during session stop"
  stop_error_message stop_closed = "transport closed while waiting for extension response"

  unfoldable pub map_stop_error : StopError → RpcError
  unfolding stop_error_message stop_error_code
  map_stop_error stop_busy = into_rpc DispatchError.session_busy
  map_stop_error e = record {
    code = stop_error_code e;
    message = stop_error_message e;
    error_data = none;
  }

  left_running : SessionStopResult → String
  left_running r =
      str_append "failed to return borrowed tabs during session stop ("
        (str_append (show (length r.return_failures)) " failure(s)); session left running")

  -- The account of one stop in the loop of `handle_session_stop_all`.
  account : String → Stopped → StopReport → StopReport
  unfolding left_running map_stop_error
  account id (stopped r) t = record t {
    stopped_ids = t.stopped_ids ++ id ∷ [];
    returned_tab_ids = t.returned_tab_ids ++ r.returned_tab_ids;
    return_failures = t.return_failures ++ r.return_failures;
  }
  account id (not_stopped (failed_returns r)) t = record t {
    failed =
        t.failed
        ++ (record { session_id = id; code = ErrorCode.cdp_failed; message = left_running r }) ∷ [];
    returned_tab_ids = t.returned_tab_ids ++ r.returned_tab_ids;
    return_failures = t.return_failures ++ r.return_failures;
  }
  account id (not_stopped e) t = record t {
    failed =
        t.failed
        ++ (record {
          session_id = id;
          code = (map_stop_error e).code;
          message = (map_stop_error e).message;
        })
          ∷ [];
  }

  -- `handle_session_stop_all`: the results of the stops of all sessions, one after the other.
  unfoldable pub stop_all : List (String × Stopped) → StopReport → StopReport
  unfolding account
  stop_all [] t = t
  stop_all ((id, result) ∷ rest) t = stop_all rest (account id result t)

  unfoldable pub answer_stop : String → Stopped → StopAnswer
  unfolding left_running map_stop_error
  answer_stop id (stopped r) = report (record {
    stopped_ids = id ∷ [];
    failed = [];
    returned_tab_ids = r.returned_tab_ids;
    return_failures = r.return_failures;
  })
  answer_stop id (not_stopped (failed_returns r)) = report (record {
    stopped_ids = [];
    failed =
        (record { session_id = id; code = ErrorCode.cdp_failed; message = left_running r }) ∷ [];
    returned_tab_ids = r.returned_tab_ids;
    return_failures = r.return_failures;
  })
  answer_stop id (not_stopped e) = stop_refused (map_stop_error e)

abbrev pub no_stops : StopReport
no_stops = record { stopped_ids = []; failed = []; returned_tab_ids = []; return_failures = [] }
