-- ===== src/Protocol/Method.antt =====
-- The namespaced RPC methods and their effect classes: crates/bsk-protocol/src/method.rs.
use browser_skill.Prelude.{Bool, true, false}

pub data MethodEffect : Type 0 where
  passive_read transient_input browser_mutation control_plane : MethodEffect

pub data Method : Type 0 where
  system_handshake system_ping system_status : Method
  session_start session_stop session_stop_all session_list : Method
  browser_list : Method
  tool_session_start tool_session_stop tool_window_resize tool_emulate : Method
  tool_tab_list tool_tab_create tool_tab_close tool_tab_borrow tool_tab_return : Method
  tool_tab_select tool_navigate tool_navigate_back tool_navigate_forward tool_reload : Method
  tool_click tool_hover tool_fill tool_press tool_select : Method
  tool_snapshot tool_observe tool_get_html tool_screenshot tool_console tool_network : Method
  tool_download_config tool_download_events tool_evaluate : Method
  tool_wait_for_navigation tool_wait_ms tool_request_help : Method
  tool_record_start tool_record_stop tool_record_await : Method
  cancel : Method

pub Method-discrete : Discrete Method
Method-discrete = hlevel

unfoldable pub effect : Method → MethodEffect
effect tool_tab_create = browser_mutation
effect tool_tab_close = browser_mutation
effect tool_tab_borrow = browser_mutation
effect tool_tab_return = browser_mutation
effect tool_tab_select = browser_mutation
effect tool_window_resize = browser_mutation
effect tool_emulate = browser_mutation
effect tool_navigate = browser_mutation
effect tool_navigate_back = browser_mutation
effect tool_navigate_forward = browser_mutation
effect tool_reload = browser_mutation
effect tool_click = browser_mutation
effect tool_fill = browser_mutation
effect tool_press = browser_mutation
effect tool_select = browser_mutation
effect tool_evaluate = browser_mutation
effect tool_download_config = browser_mutation
effect tool_record_start = browser_mutation
effect tool_hover = transient_input
effect tool_observe = transient_input
effect tool_tab_list = passive_read
effect tool_snapshot = passive_read
effect tool_get_html = passive_read
effect tool_screenshot = passive_read
effect tool_console = passive_read
effect tool_network = passive_read
effect tool_download_events = passive_read
effect tool_wait_for_navigation = passive_read
effect tool_wait_ms = passive_read
effect tool_request_help = passive_read
effect tool_record_stop = passive_read
effect tool_record_await = passive_read
effect session_start = control_plane
effect session_stop = control_plane
effect session_stop_all = control_plane
effect session_list = control_plane
effect tool_session_start = control_plane
effect tool_session_stop = control_plane
effect system_handshake = control_plane
effect system_ping = control_plane
effect system_status = control_plane
effect browser_list = control_plane
effect cancel = control_plane

unfoldable pub gates : MethodEffect → Bool
gates transient_input = true
gates browser_mutation = true
gates _ = false

unfoldable pub requires_interrupt_gate : Method → Bool
unfolding gates
requires_interrupt_gate m = gates (effect m)
