-- ===== src/Daemon/Ipc.antt =====
-- The request handlers of the CLI peer: crates/bsk-cli/src/daemon/ipc.rs. `begin_*` is a handler up
-- to its await, `end_*` the rest. The parameters of a tool call are given as the views that the
-- handler takes of the JSON object.
pub mod Gate
pub mod Course
pub mod Passive
pub mod Registered
pub mod Lifecycle
use Prim.Native.String.{◌++◌ as str_append}
use browser_skill.Prelude.{
  ℕ, ◌-◌, ◌*◌, Bool, false, Option, none, some, String, if◌then◌else◌, ite, text_discrete,
}
use browser_skill.Map.{lookup}
use browser_skill.Protocol.Method.{Method, Method-discrete, requires_interrupt_gate}
use browser_skill.Protocol.Method
use browser_skill.Protocol.Frame.{Value, RpcError, ErrorCode, ResponseBody}
use browser_skill.Daemon.Sessions.{touch}
use browser_skill.Daemon.Inflight
use browser_skill.Daemon.Abort
use browser_skill.Daemon.Interrupts.{try_consume}
use browser_skill.Daemon.Queues.{ToolJob, DispatchError, waiting, refused, submit, into_rpc}
use browser_skill.Daemon.Forward.{Forwarding, failed, awaiting, begin_forward}
use browser_skill.Daemon.Times.{within, bad_timeout, tool_dispatch_timeout, invalid}
use browser_skill.Daemon.State.{Daemon}

-- Which handler `full_handler` gives a method to.
pub data Route : Type 0 where
  ping status start stop stop_all list browsers tool_dispatch wait_ms cancel unknown_method : Route

unfoldable pub route : Method → Route
route Method.system_ping = ping
route Method.system_status = status
route Method.session_start = start
route Method.session_stop = stop
route Method.session_stop_all = stop_all
route Method.session_list = list
route Method.browser_list = browsers
route Method.tool_tab_list = tool_dispatch
route Method.tool_tab_create = tool_dispatch
route Method.tool_tab_close = tool_dispatch
route Method.tool_tab_select = tool_dispatch
route Method.tool_tab_borrow = tool_dispatch
route Method.tool_tab_return = tool_dispatch
route Method.tool_window_resize = tool_dispatch
route Method.tool_emulate = tool_dispatch
route Method.tool_screenshot = tool_dispatch
route Method.tool_console = tool_dispatch
route Method.tool_network = tool_dispatch
route Method.tool_snapshot = tool_dispatch
route Method.tool_observe = tool_dispatch
route Method.tool_get_html = tool_dispatch
route Method.tool_navigate = tool_dispatch
route Method.tool_navigate_back = tool_dispatch
route Method.tool_navigate_forward = tool_dispatch
route Method.tool_reload = tool_dispatch
route Method.tool_click = tool_dispatch
route Method.tool_hover = tool_dispatch
route Method.tool_fill = tool_dispatch
route Method.tool_press = tool_dispatch
route Method.tool_select = tool_dispatch
route Method.tool_evaluate = tool_dispatch
route Method.tool_wait_for_navigation = tool_dispatch
route Method.tool_request_help = tool_dispatch
route Method.tool_record_start = tool_dispatch
route Method.tool_record_stop = tool_dispatch
route Method.tool_record_await = tool_dispatch
route Method.tool_download_config = tool_dispatch
route Method.tool_download_events = tool_dispatch
route Method.tool_wait_ms = wait_ms
route Method.cancel = cancel
route Method.system_handshake = unknown_method
route Method.tool_session_start = unknown_method
route Method.tool_session_stop = unknown_method

-- `params.get("session_id").as_str()`, `params.get("timeout_ms")` with its `as_u64()`, the answer
-- that help is disabled (with the `tab_id` of the parameters), and the parameters themselves.
pub record ToolParams : Type 0 where
  pub session_id : Option String
  pub timeout_ms : Option (Option ℕ)
  pub help_disabled_result : Value
  pub raw : Value

-- A handler before its await: an answer, a job whose channel will respond (with its inflight entry),
-- or a request forwarded past the queue, by the generation of its client, its WS id and its entry.
pub data Admission : Type 0 where
  replied : ResponseBody → Admission
  queued : ℕ → ℕ → Admission
  forwarded : ℕ → String → ℕ → Admission

fail : RpcError → Admission
fail e = replied (ResponseBody.err e)

-- The guard is dropped.
drop_guard : String → ℕ → Daemon → Daemon
drop_guard rpc_id a d = record d { tool_inflight = Inflight.unregister rpc_id a d.tool_inflight }

touched : String → ℕ → Daemon → Daemon
touched sid now d = record d { sessions = (touch sid now d.sessions).0 }

-- `dispatch`: a job that the lock refuses does not count as activity.
unfoldable pub dispatch : String → String → ℕ → ℕ → ToolJob → Daemon → Daemon × Admission
unfolding drop_guard touched fail
dispatch rpc_id sid a now job d =
    let (q, answer) = submit sid job d.tool_queues in
    let d' = record d { tool_queues = q } in
    elim answer [
      | waiting c ↦ (touched sid now d', queued c a)
      | refused DispatchError.queue_full ↦
          (drop_guard rpc_id a (touched sid now d'), fail (into_rpc DispatchError.queue_full))
      | refused DispatchError.queue_closed ↦
          (drop_guard rpc_id a (touched sid now d'), fail (into_rpc DispatchError.queue_closed))
      | refused e ↦ (drop_guard rpc_id a d', fail (into_rpc e))
    ]

-- A forward that fails before its await is answered at once.
unfoldable pub answered_or_forwarded : String → ℕ → Daemon → Forwarding → Daemon × Admission
unfolding drop_guard fail
answered_or_forwarded rpc_id a d (failed e) =
    (drop_guard rpc_id a d, fail (into_rpc (DispatchError.rpc e)))
answered_or_forwarded rpc_id a d (awaiting g ws token) = (d, forwarded g ws a)

-- `dispatch_unlocked`: the queue must accept, and is passed by.
unfoldable pub dispatch_unlocked :
    String → String → ℕ → String → ToolJob → Daemon → Daemon × Admission
unfolding drop_guard fail answered_or_forwarded
dispatch_unlocked rpc_id sid a ws_rpc_id job d = elim (lookup sid d.tool_queues.queues) [
  | none ↦ (drop_guard rpc_id a d, fail (into_rpc DispatchError.session_not_found))
  | some e ↦
      if e.accepting
      then (let (d', f) = begin_forward sid ws_rpc_id job d in answered_or_forwarded rpc_id a d' f)
      else (drop_guard rpc_id a d, fail (into_rpc DispatchError.session_stopping))
]

-- The registered call, past the interrupt gate.
unfoldable pub admit :
    String → Method → String → ℕ → ToolParams → ℕ → String → Daemon → Daemon × Admission
unfolding dispatch dispatch_unlocked fail
admit rpc_id m sid limit p now ws_rpc_id d =
    let (registry, entry) = Inflight.register rpc_id sid d.tool_inflight in
    let d' = record d { tool_inflight = registry } in
    elim entry [
      | none ↦ (
        d',
        fail (record {
          code = ErrorCode.protocol_error;
          message = str_append "inflight registration rejected: duplicate cli_rpc_id: " rpc_id;
          error_data = none;
        }),
      )
      | some a ↦
          let job : ToolJob = record {
            method = m;
            params = p.raw;
            timeout = limit;
            inflight = some a;
            session_id = sid;
          } in
          ite (Method-discrete m Method.tool_record_stop)
            (dispatch_unlocked rpc_id sid a ws_rpc_id job d') (dispatch rpc_id sid a now job d')
    ]

pub aborted : RpcError
aborted = record {
  code = ErrorCode.user_aborted;
  message =
      "tool dispatch rejected: pending user interrupt. The user explicitly requested to stop. Ask the user how to proceed before issuing further actions.";
  error_data = none;
}

timed : String → Method → String → ToolParams → ℕ → String → Daemon → Daemon × Admission
unfolding admit fail
timed rpc_id m sid p now ws_rpc_id d = elim (tool_dispatch_timeout p.timeout_ms) [
  | bad_timeout e ↦ (d, fail e)
  | within limit ↦ admit rpc_id m sid limit p now ws_rpc_id d
]

-- A pending interrupt is consumed by the first call that needs the gate, and rejects it.
gated : String → Method → String → ToolParams → ℕ → String → Daemon → Daemon × Admission
unfolding timed aborted fail
gated rpc_id m sid p now ws_rpc_id d =
    if requires_interrupt_gate m
    then (let (marks, pending) = try_consume sid d.session_interrupts in
        if pending
        then (record d { session_interrupts = marks }, fail aborted)
        else timed rpc_id m sid p now ws_rpc_id (record d { session_interrupts = marks }))
    else timed rpc_id m sid p now ws_rpc_id d

named_session : Option String → Option String
named_session none = none
named_session (some s) = ite (text_discrete s "") none (some s)

-- `help_disabled` is `request_help_disabled()`.
unfoldable pub begin_tool_dispatch :
    Bool → String → Method → ToolParams → ℕ → String → Daemon → Daemon × Admission
unfolding gated named_session invalid fail
begin_tool_dispatch help_disabled rpc_id m p now ws_rpc_id d =
    if ite (Method-discrete m Method.tool_request_help) help_disabled false
    then (d, replied (ResponseBody.ok p.help_disabled_result))
    else elim (named_session p.session_id) [
      | none ↦ (d, fail (invalid "tool.* RPC requires non-empty session_id"))
      | some sid ↦ gated rpc_id m sid p now ws_rpc_id d
    ]

-- After the response: the touch of `dispatch`, which `dispatch_unlocked` does not have, and the guard
-- dropped.
unfoldable pub end_tool_dispatch :
    String → Method → String → ℕ → ℕ → ResponseBody → Daemon → Daemon × ResponseBody
unfolding drop_guard touched
end_tool_dispatch rpc_id m sid a now body d =
    let d' = ite (Method-discrete m Method.tool_record_stop) d (touched sid now d) in
    (drop_guard rpc_id a d', body)
