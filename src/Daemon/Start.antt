-- ===== src/Daemon/Start.antt =====
-- Starting a session: `start_session` in crates/bsk-cli/src/daemon/sessions.rs, cut at its await.
pub mod Outcomes
use browser_skill.Prelude.{ℕ, Bool, Option, none, some, List, String, if◌then◌else◌}
use browser_skill.Protocol.Method.{tool_session_start}
use browser_skill.Protocol.Frame.{Value, RpcError, ErrorCode, ResponseFrame, ResponseBody, request}
use browser_skill.Daemon.Browsers.{BrowserClient, SelectError, Selected, send}
use browser_skill.Daemon.Browsers
use browser_skill.Daemon.Sessions.{Session, reserve_id, commit_reservation, cancel_reservation}
use browser_skill.Daemon.Queues.{spawn}
use browser_skill.Daemon.State.{Daemon, with_cell}

-- The snapshot of the browsers that `multiple_browsers_online` carries for display is left out.
pub data StartError : Type 0 where
  no_browser_connected multiple_browsers_online browser_not_found : StartError
  ambiguous_browser_label : String → List String → StartError
  id_exhausted start_timeout transport_closed : StartError
  extension_error : RpcError → StartError

unfoldable pub start_error_of : SelectError → StartError
start_error_of SelectError.no_browser_connected = no_browser_connected
start_error_of SelectError.multiple_browsers_online = multiple_browsers_online
start_error_of SelectError.not_found = browser_not_found
start_error_of (SelectError.ambiguous_label label ids) = ambiguous_browser_label label ids

pub record SessionStartParams : Type 0 where
  pub session_id : String
  pub browser_instance_id : Option String
  pub width : Option ℕ
  pub height : Option ℕ
  pub focused : Option Bool

pub record AgentWindowOptions : Type 0 where
  pub size : Option (ℕ × ℕ)
  pub focused : Option Bool

abbrev session_id_max_reserve_attempts : ℕ
session_id_max_reserve_attempts = 64

pub data Starting : Type 0 where
  start_failed : StartError → Starting
  -- The client's generation, the reserved id and the RPC id of the awaited response.
  start_waiting : ℕ → String → String → Starting

start_params : AgentWindowOptions → String → BrowserClient → SessionStartParams
start_params window sid client = record {
  session_id = sid;
  browser_instance_id = some client.id;
  width = elim window.size [ none ↦ none | some (w, h) ↦ some w ];
  height = elim window.size [ none ↦ none | some (w, h) ↦ some h ];
  focused = window.focused;
}

-- The request for a reserved id, or the reservation undone.
send_start :
    (SessionStartParams → Value)
    → AgentWindowOptions
    → BrowserClient
    → String
    → String
    → Daemon
    → Daemon × Starting
unfolding start_params send
send_start encode window client sid rpc_id d =
    let g = client.generation in
    let d' = with_cell g (Browsers.register rpc_id) d in
    let frame = request (record {
      id = rpc_id;
      method = tool_session_start;
      params = some (encode (start_params window sid client));
    }) in
    let (c, sent) = send frame (d'.cell g) in
    if sent then (with_cell g (λ _. c) d', start_waiting g sid rpc_id) else (
      with_cell g (Browsers.cancel rpc_id)
          (record d' { sessions = cancel_reservation sid d'.sessions }),
      start_failed transport_closed,
    )

unfoldable pub begin_start :
    (SessionStartParams → Value)
    → AgentWindowOptions
    → Selected
    → List String
    → ℕ
    → ℕ
    → String
    → Daemon
    → Daemon × Starting
unfolding send_start start_error_of
begin_start encode window (Selected.err e) draws now_ms now rpc_id d =
    (d, start_failed (start_error_of e))
begin_start encode window (Selected.ok client) draws now_ms now rpc_id d =
    let (sessions, reserved) =
      reserve_id client.id session_id_max_reserve_attempts draws now_ms now d.sessions in
    elim reserved [
      | none ↦ (record d { sessions = sessions }, start_failed id_exhausted)
      | some sid ↦ send_start encode window client sid rpc_id (record d { sessions = sessions })
    ]

-- How an awaited response ends.
pub data Awaited : Type 0 where
  arrived : ResponseFrame → Awaited
  waiter_dropped late : Awaited

pub data Started : Type 0 where
  started : Session → Started
  not_started : StartError → Started

unfoldable pub protocol_failure : String → RpcError
protocol_failure message = record {
  code = ErrorCode.protocol_error;
  message = message;
  error_data = none;
}

undo : String → StartError → Daemon → Daemon × Started
undo sid e d = (record d { sessions = cancel_reservation sid d.sessions }, not_started e)

commit : String → Option ℕ → Daemon → Daemon × Started
unfolding protocol_failure
commit sid window d =
    let (sessions, session) = commit_reservation sid window d.sessions in
    elim session [
      | none ↦ (
        record d { sessions = sessions },
        not_started
            (extension_error (protocol_failure "session reservation vanished before commit")),
      )
      | some s ↦
          (record d { sessions = sessions; tool_queues = spawn sid d.tool_queues }, started s)
    ]

unfoldable pub end_start :
    (Value → Option (Option ℕ)) → ℕ → String → String → Awaited → Daemon → Daemon × Started
unfolding undo commit protocol_failure
end_start decode g sid rpc_id (arrived f) d = elim f.body [
  | ResponseBody.ok v ↦ elim (decode v) [
    | none ↦ undo sid (extension_error (protocol_failure "invalid tool.session_start payload")) d
    | some window ↦ commit sid window d
  ]
  | ResponseBody.err e ↦ undo sid (extension_error e) d
]
end_start decode g sid rpc_id waiter_dropped d =
    undo sid transport_closed (with_cell g (Browsers.cancel rpc_id) d)
end_start decode g sid rpc_id late d =
    undo sid start_timeout (with_cell g (Browsers.cancel rpc_id) d)
