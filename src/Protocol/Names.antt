-- ===== src/Protocol/Names.antt =====
-- The names of methods, events and error codes on the wire, as serde derives them:
-- crates/bsk-protocol/src/method.rs, frame.rs and error.rs.
pub mod Unique
use browser_skill.Prelude.{◌≡◌, refl, Option, none, some, List, [], ◌∷◌, String, ite, text_discrete}
use browser_skill.Protocol.Method.{Method}
use browser_skill.Protocol.Frame.{EventKind, ErrorCode}

-- The variant of a name, among the variants of an enum.
unfoldable pub of_name {ℓ} : {A : Type ℓ} → (A → String) → List A → String → Option A
of_name name [] s = none
of_name name (a ∷ rest) s = ite (text_discrete (name a) s) (some a) (of_name name rest s)

unfoldable pub method_name : Method → String
method_name Method.system_handshake = "system.handshake"
method_name Method.system_ping = "system.ping"
method_name Method.system_status = "system.status"
method_name Method.session_start = "session.start"
method_name Method.session_stop = "session.stop"
method_name Method.session_stop_all = "session.stop_all"
method_name Method.session_list = "session.list"
method_name Method.browser_list = "browser.list"
method_name Method.tool_session_start = "tool.session_start"
method_name Method.tool_session_stop = "tool.session_stop"
method_name Method.tool_window_resize = "tool.window_resize"
method_name Method.tool_emulate = "tool.emulate"
method_name Method.tool_tab_list = "tool.tab_list"
method_name Method.tool_tab_create = "tool.tab_create"
method_name Method.tool_tab_close = "tool.tab_close"
method_name Method.tool_tab_borrow = "tool.tab_borrow"
method_name Method.tool_tab_return = "tool.tab_return"
method_name Method.tool_tab_select = "tool.tab_select"
method_name Method.tool_navigate = "tool.navigate"
method_name Method.tool_navigate_back = "tool.navigate_back"
method_name Method.tool_navigate_forward = "tool.navigate_forward"
method_name Method.tool_reload = "tool.reload"
method_name Method.tool_click = "tool.click"
method_name Method.tool_hover = "tool.hover"
method_name Method.tool_fill = "tool.fill"
method_name Method.tool_press = "tool.press"
method_name Method.tool_select = "tool.select"
method_name Method.tool_snapshot = "tool.snapshot"
method_name Method.tool_observe = "tool.observe"
method_name Method.tool_get_html = "tool.get_html"
method_name Method.tool_screenshot = "tool.screenshot"
method_name Method.tool_console = "tool.console"
method_name Method.tool_network = "tool.network"
method_name Method.tool_download_config = "tool.download_config"
method_name Method.tool_download_events = "tool.download_events"
method_name Method.tool_evaluate = "tool.evaluate"
method_name Method.tool_wait_for_navigation = "tool.wait_for_navigation"
method_name Method.tool_wait_ms = "tool.wait_ms"
method_name Method.tool_request_help = "tool.request_help"
method_name Method.tool_record_start = "tool.record_start"
method_name Method.tool_record_stop = "tool.record_stop"
method_name Method.tool_record_await = "tool.record_await"
method_name Method.cancel = "cancel"

abbrev pub methods : List Method
methods =
    Method.system_handshake ∷ Method.system_ping ∷ Method.system_status ∷ Method.session_start
    ∷ Method.session_stop ∷ Method.session_stop_all ∷ Method.session_list ∷ Method.browser_list
    ∷ Method.tool_session_start ∷ Method.tool_session_stop ∷ Method.tool_window_resize
    ∷ Method.tool_emulate ∷ Method.tool_tab_list ∷ Method.tool_tab_create ∷ Method.tool_tab_close
    ∷ Method.tool_tab_borrow ∷ Method.tool_tab_return ∷ Method.tool_tab_select
    ∷ Method.tool_navigate ∷ Method.tool_navigate_back ∷ Method.tool_navigate_forward
    ∷ Method.tool_reload ∷ Method.tool_click ∷ Method.tool_hover ∷ Method.tool_fill
    ∷ Method.tool_press ∷ Method.tool_select ∷ Method.tool_snapshot ∷ Method.tool_observe
    ∷ Method.tool_get_html ∷ Method.tool_screenshot ∷ Method.tool_console ∷ Method.tool_network
    ∷ Method.tool_download_config ∷ Method.tool_download_events ∷ Method.tool_evaluate
    ∷ Method.tool_wait_for_navigation ∷ Method.tool_wait_ms ∷ Method.tool_request_help
    ∷ Method.tool_record_start ∷ Method.tool_record_stop ∷ Method.tool_record_await ∷ Method.cancel
    ∷ []

unfoldable pub event_name : EventKind → String
event_name EventKind.system_heartbeat = "system.heartbeat"
event_name EventKind.session_activity = "session.activity"
event_name EventKind.session_window_closed = "session.window_closed"
event_name EventKind.session_user_interrupt = "session.user_interrupt"
event_name EventKind.browser_disconnected = "browser.disconnected"
event_name EventKind.browser_connected = "browser.connected"

abbrev pub events : List EventKind
events =
    EventKind.system_heartbeat ∷ EventKind.session_activity ∷ EventKind.session_window_closed
    ∷ EventKind.session_user_interrupt ∷ EventKind.browser_disconnected
    ∷ EventKind.browser_connected ∷ []

unfoldable pub code_name : ErrorCode → String
code_name ErrorCode.unknown_method = "unknown_method"
code_name ErrorCode.unsupported = "unsupported"
code_name ErrorCode.invalid_params = "invalid_params"
code_name ErrorCode.not_found = "not_found"
code_name ErrorCode.permission_denied = "permission_denied"
code_name ErrorCode.timeout = "timeout"
code_name ErrorCode.cdp_failed = "cdp_failed"
code_name ErrorCode.protocol_error = "protocol_error"
code_name ErrorCode.cancelled = "cancelled"
code_name ErrorCode.user_aborted = "user_aborted"
code_name ErrorCode.version_too_old = "version_too_old"
code_name ErrorCode.multiple_browsers_online = "multiple_browsers_online"
code_name ErrorCode.no_browser_connected = "no_browser_connected"

abbrev pub codes : List ErrorCode
codes =
    ErrorCode.unknown_method ∷ ErrorCode.unsupported ∷ ErrorCode.invalid_params
    ∷ ErrorCode.not_found ∷ ErrorCode.permission_denied ∷ ErrorCode.timeout ∷ ErrorCode.cdp_failed
    ∷ ErrorCode.protocol_error ∷ ErrorCode.cancelled ∷ ErrorCode.user_aborted
    ∷ ErrorCode.version_too_old ∷ ErrorCode.multiple_browsers_online
    ∷ ErrorCode.no_browser_connected ∷ []
