-- ===== src/Protocol/Frame.antt =====
-- The frames of the wire, and the errors that they carry: crates/bsk-protocol/src/frame.rs and
-- error.rs.
use browser_skill.Prelude.{Option, String}
pub use browser_skill.Protocol.Json.{Value, rpc_id_object, reason_object, session_id_object}
use browser_skill.Protocol.Method.{Method}

pub data ErrorCode : Type 0 where
  unknown_method unsupported invalid_params not_found permission_denied timeout : ErrorCode
  cdp_failed protocol_error cancelled user_aborted version_too_old : ErrorCode
  multiple_browsers_online no_browser_connected : ErrorCode

pub record RpcError : Type 0 where
  pub code : ErrorCode
  pub message : String
  pub error_data : Option Value

pub data ResponseBody : Type 0 where
  ok : Value → ResponseBody
  err : RpcError → ResponseBody

pub record RequestFrame : Type 0 where
  pub id : String
  pub method : Method
  pub params : Option Value

pub record ResponseFrame : Type 0 where
  pub id : String
  pub body : ResponseBody

pub data EventKind : Type 0 where
  system_heartbeat session_activity session_window_closed session_user_interrupt : EventKind
  browser_disconnected browser_connected : EventKind

pub record EventFrame : Type 0 where
  pub event : EventKind
  pub payload : Value

pub data Frame : Type 0 where
  request : RequestFrame → Frame
  response : ResponseFrame → Frame
  event : EventFrame → Frame
