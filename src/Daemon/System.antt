-- ===== src/Daemon/System.antt =====
-- The daemon as a whole: every handler, connection and worker turn as one event on its state, the
-- events in any order. An event carries what the code outside of the daemon decides: frames, decoders,
-- draws, times and answers.
pub mod Registries
pub mod Cancelling
pub mod Members
pub mod Peopled
pub mod Lifecycles
pub mod Messages
pub mod Calls
pub mod Turns
pub mod Reachable
use browser_skill.Prelude.{ℕ, Bool, Option, List, [], String}
use browser_skill.Protocol.Method.{Method}
use browser_skill.Protocol.Frame.{Value, RequestFrame, ResponseBody}
use browser_skill.Daemon.Browsers.{select}
use browser_skill.Daemon.Sessions
use browser_skill.Daemon.Queues
use browser_skill.Daemon.Queues.{ToolJob, SendEnd, end_send_at, recv_at, finish_at}
use browser_skill.Daemon.Inflight
use browser_skill.Daemon.Abort
use browser_skill.Daemon.State.{Daemon}
use browser_skill.Daemon.Forward.{WaitOutcome, begin_forward, end_forward}
use browser_skill.Daemon.Start.{
  AgentWindowOptions, SessionStartParams, Awaited, begin_start, end_start,
}
use browser_skill.Daemon.Stop.{SessionStopResult, Dispatched, begin_stop, end_stop, forget_session}
use browser_skill.Daemon.Times.{WaitEnd, begin_wait_ms, end_wait_ms}
use browser_skill.Daemon.Cancel.{handle_cancel}
use browser_skill.Daemon.Ipc.{ToolParams, begin_tool_dispatch, end_tool_dispatch}
use browser_skill.Daemon.Ws.{
  HandshakeParams, Message, begin_connection, reply_handshake, pump_inbound, disconnect, reap,
}

-- `DaemonState::new`: nothing is registered.
unfoldable pub start : Daemon
start = record {
  browsers = [];
  cell = λ _. record {
    sent = [];
    sink_open = Bool.false;
    waiters = [];
    delivered = [];
    last_seen = 0;
    heartbeat_seen = Bool.false;
  };
  next_generation = 1;
  sessions = Sessions.new;
  tool_queues = Queues.new;
  abort_registry = Abort.new;
  tool_inflight = Inflight.new;
  session_interrupts = [];
}

pub data Event : Type 0 where
  -- A connection of an extension.
  opens : (Value → Option HandshakeParams) → RequestFrame → ℕ → ℕ → Event
  answers : Bool → ℕ → Event
  receives : (Value → Option String) → String → ℕ → ℕ → Message → Event
  closes : String → ℕ → Event
  reaps : ℕ → ℕ → Event
  -- A session.
  starts :
      (SessionStartParams → Value)
      → AgentWindowOptions
      → Option String
      → List String
      → ℕ
      → ℕ
      → String
      → Event
  started : (Value → Option (Option ℕ)) → ℕ → String → String → Awaited → Event
  stops : String → ℕ → Event
  stopped : (Value → Option SessionStopResult) → String → Dispatched → Event
  forgets : String → Event
  -- A tool call, a wait and a cancel.
  calls : Bool → String → Method → ToolParams → ℕ → String → Event
  called : String → Method → String → ℕ → ℕ → ResponseBody → Event
  cancels : String → Event
  waits : String → ℕ → Event
  waited : String → ℕ → ℕ → WaitEnd → Event
  -- A queue's senders and worker.
  sends : SendEnd → ℕ → Event
  takes finishes : ℕ → Event
  forwards : String → String → ToolJob → Event
  forwarded : ℕ → String → ToolJob → WaitOutcome → Event

unfoldable pub step : Daemon → Event → Daemon
step d (opens decode frame at now) = (begin_connection decode frame at now d).0
step d (answers written g) = (reply_handshake written g d).0
step d (receives view sender g now m) = pump_inbound view sender g now m d
step d (closes id g) = disconnect id g d
step d (reaps timeout now) = reap timeout now d
step d (starts encode window requested draws now_ms now rpc_id) =
    (begin_start encode window (select requested d.browsers) draws now_ms now rpc_id d).0
step d (started decode g sid rpc_id how) = (end_start decode g sid rpc_id how d).0
step d (stops sid limit) = (begin_stop sid limit d).0
step d (stopped decode sid r) = (end_stop decode sid r d).0
step d (forgets sid) = (forget_session sid d).0
step d (calls help_disabled rpc_id m p now ws_rpc_id) =
    (begin_tool_dispatch help_disabled rpc_id m p now ws_rpc_id d).0
step d (called rpc_id m sid a now body) = (end_tool_dispatch rpc_id m sid a now body d).0
step d (cancels rpc_id) = (handle_cancel rpc_id d).0
step d (waits rpc_id duration) = record d {
  abort_registry = (begin_wait_ms rpc_id duration d.abort_registry).0;
}
step d (waited rpc_id t duration how) = record d {
  abort_registry = (end_wait_ms rpc_id t duration how d.abort_registry).0;
}
step d (sends how a) = record d { tool_queues = end_send_at how a d.tool_queues }
step d (takes a) = record d { tool_queues = recv_at a d.tool_queues }
step d (finishes a) = record d { tool_queues = finish_at a d.tool_queues }
step d (forwards sid rpc_id job) = (begin_forward sid rpc_id job d).0
step d (forwarded g rpc_id job how) = (end_forward g rpc_id job how d).0

-- The states that the daemon can come to.
pub data IsReachable : Daemon → Type 0 where
  at_start : IsReachable start
  after : {d : Daemon} → IsReachable d → (e : Event) → IsReachable (step d e)
