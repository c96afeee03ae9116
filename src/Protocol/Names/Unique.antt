-- ===== src/Protocol/Names/Unique.antt =====
-- Names on the wire that are read back.
use browser_skill.Prelude.{◌≡◌, refl, some, text_discrete}
use browser_skill.Protocol.Method.{Method}
use browser_skill.Protocol.Frame.{EventKind, ErrorCode}
use browser_skill.Protocol.Names.{
  of_name, method_name, methods, event_name, events, code_name, codes,
}

pub of_name-method_name : (x : Method) → of_name method_name methods (method_name x) ≡ some x
unfolding of_name method_name text_discrete
of_name-method_name Method.system_handshake = refl
of_name-method_name Method.system_ping = refl
of_name-method_name Method.system_status = refl
of_name-method_name Method.session_start = refl
of_name-method_name Method.session_stop = refl
of_name-method_name Method.session_stop_all = refl
of_name-method_name Method.session_list = refl
of_name-method_name Method.browser_list = refl
of_name-method_name Method.tool_session_start = refl
of_name-method_name Method.tool_session_stop = refl
of_name-method_name Method.tool_window_resize = refl
of_name-method_name Method.tool_emulate = refl
of_name-method_name Method.tool_tab_list = refl
of_name-method_name Method.tool_tab_create = refl
of_name-method_name Method.tool_tab_close = refl
of_name-method_name Method.tool_tab_borrow = refl
of_name-method_name Method.tool_tab_return = refl
of_name-method_name Method.tool_tab_select = refl
of_name-method_name Method.tool_navigate = refl
of_name-method_name Method.tool_navigate_back = refl
of_name-method_name Method.tool_navigate_forward = refl
of_name-method_name Method.tool_reload = refl
of_name-method_name Method.tool_click = refl
of_name-method_name Method.tool_hover = refl
of_name-method_name Method.tool_fill = refl
of_name-method_name Method.tool_press = refl
of_name-method_name Method.tool_select = refl
of_name-method_name Method.tool_snapshot = refl
of_name-method_name Method.tool_observe = refl
of_name-method_name Method.tool_get_html = refl
of_name-method_name Method.tool_screenshot = refl
of_name-method_name Method.tool_console = refl
of_name-method_name Method.tool_network = refl
of_name-method_name Method.tool_download_config = refl
of_name-method_name Method.tool_download_events = refl
of_name-method_name Method.tool_evaluate = refl
of_name-method_name Method.tool_wait_for_navigation = refl
of_name-method_name Method.tool_wait_ms = refl
of_name-method_name Method.tool_request_help = refl
of_name-method_name Method.tool_record_start = refl
of_name-method_name Method.tool_record_stop = refl
of_name-method_name Method.tool_record_await = refl
of_name-method_name Method.cancel = refl

pub of_name-event_name : (x : EventKind) → of_name event_name events (event_name x) ≡ some x
unfolding of_name event_name text_discrete
of_name-event_name EventKind.system_heartbeat = refl
of_name-event_name EventKind.session_activity = refl
of_name-event_name EventKind.session_window_closed = refl
of_name-event_name EventKind.session_user_interrupt = refl
of_name-event_name EventKind.browser_disconnected = refl
of_name-event_name EventKind.browser_connected = refl

pub of_name-code_name : (x : ErrorCode) → of_name code_name codes (code_name x) ≡ some x
unfolding of_name code_name text_discrete
of_name-code_name ErrorCode.unknown_method = refl
of_name-code_name ErrorCode.unsupported = refl
of_name-code_name ErrorCode.invalid_params = refl
of_name-code_name ErrorCode.not_found = refl
of_name-code_name ErrorCode.permission_denied = refl
of_name-code_name ErrorCode.timeout = refl
of_name-code_name ErrorCode.cdp_failed = refl
of_name-code_name ErrorCode.protocol_error = refl
of_name-code_name ErrorCode.cancelled = refl
of_name-code_name ErrorCode.user_aborted = refl
of_name-code_name ErrorCode.version_too_old = refl
of_name-code_name ErrorCode.multiple_browsers_online = refl
of_name-code_name ErrorCode.no_browser_connected = refl
