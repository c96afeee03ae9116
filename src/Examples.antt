-- ===== src/Examples.antt =====
-- One concrete run for each property with hypotheses: a daemon with two browsers, a session each, and
-- a running call of the first session.
pub mod Negotiation
pub mod Calls
pub mod Forwarding
pub mod Requests
pub mod SessionRegistry
pub mod Lifecycles
pub mod Clients
pub mod Connections
pub mod Wire
pub mod Reachability
pub mod Commands
pub mod Upgrades
pub mod Processes
pub mod Skills
use browser_skill.Prelude.{ℕ, true, false, none, some, [], ◌∷◌, String, Option}
use browser_skill.Protocol.Method
use browser_skill.Protocol.Frame.{Value}
use browser_skill.Daemon.Browsers.{BrowserClient, Cell}
use browser_skill.Daemon.Browsers
use browser_skill.Daemon.Sessions.{Session, Sessions}
use browser_skill.Daemon.Inflight.{Entry}
use browser_skill.Daemon.Inflight
use browser_skill.Daemon.Abort
use browser_skill.Daemon.Queues.{Channel, Queues, ToolJob}
use browser_skill.Daemon.State.{Daemon}
use browser_skill.Daemon.Ipc.{ToolParams}

abbrev pub client_one : BrowserClient
client_one = record {
  id = "b1";
  browser_name = "Chrome";
  browser_version = "140";
  extension_version = "1.0.0";
  extension_protocol_version = b'1' ∷ b'.' ∷ b'0' ∷ [];
  label = "work";
  generation = 0;
  connected_at_ms = 0;
  version_skew = false;
}

abbrev pub client_two : BrowserClient
client_two = record client_one { id = "b2"; label = "home"; generation = 1 }

abbrev pub browsers : Browsers.Registry
browsers = ("b1", client_one) ∷ ("b2", client_two) ∷ []

abbrev pub cell : Cell
cell = record {
  sent = [];
  sink_open = true;
  waiters = [];
  delivered = [];
  last_seen = 0;
  heartbeat_seen = true;
}

abbrev pub session_one : Session
session_one = record { id = "s1"; browser_id = "b1"; agent_window_id = some 7; created_at_ms = 0 }

abbrev pub session_two : Session
session_two = record { id = "s2"; browser_id = "b2"; agent_window_id = some 8; created_at_ms = 0 }

abbrev pub sessions : Sessions
sessions = record {
  inner = ("s1", session_one) ∷ ("s2", session_two) ∷ [];
  last_activity = ("s1", 5) ∷ ("s2", 6) ∷ [];
}

abbrev pub channel : Channel
channel = record { busy = false; receiver_open = true; jobs = []; sending = none; current = none }

abbrev pub queues : Queues
queues = record {
  queues =
      ("s1", record { sender = 0; accepting = true })
      ∷ ("s2", record { sender = 1; accepting = true })
      ∷ [];
  channel = λ _. channel;
  next = 2;
}

-- A call of the first session that was forwarded.
abbrev pub entry : Entry
entry = record {
  cancel_token = false;
  browser_id = some "b1";
  ws_rpc_id = some "w1";
  is_cancelled = false;
  cancel_reason = none;
  session_id = "s1";
}

abbrev pub inflight : Inflight.Registry
inflight = record { table = ("r1", 0) ∷ []; entry = λ _. entry; next = 1 }

abbrev pub aborts : Abort.Registry
aborts = record { tokens = ("t1", 0) ∷ []; is_cancelled = λ _. false; next = 1 }

abbrev pub daemon : Daemon
daemon = record {
  browsers = browsers;
  cell = λ _. cell;
  next_generation = 2;
  sessions = sessions;
  tool_queues = queues;
  abort_registry = aborts;
  tool_inflight = inflight;
  session_interrupts = [];
}

-- A click for the first session.
abbrev pub click : ToolParams
click = record {
  session_id = some "s1";
  timeout_ms = none;
  help_disabled_result = Value.null;
  raw = Value.string "{}";
}

abbrev pub job : ToolJob
job = record {
  method = Method.tool_click;
  params = Value.string "{}";
  timeout = 1000;
  inflight = none;
  session_id = "s1";
}

-- A payload is the name of a session.
abbrev pub view : Value → Option String
view (Value.string sid) = some sid
view _ = none
