-- ===== src/Daemon/Ws.antt =====
-- One WebSocket connection of an extension: crates/bsk-cli/src/daemon/ws.rs, and the liveness reaper
-- of crates/bsk-cli/src/daemon/start.rs. The JSON decoders are arguments.
pub mod Origin
pub mod Purge
pub mod Connection
pub mod Liveness
pub mod Ownership
pub mod Isolation
use browser_skill.Prelude.{
  ℕ, suc, Bool, true, false, ◌&&◌, Option, none, some, List, [], ◌∷◌, String, if◌then◌else◌, ite,
  text_discrete, length, leb, ◌==◌, is_some,
}
use browser_skill.Protocol.Method.{Method, Method-discrete}
use browser_skill.Protocol.Frame.{Value, RequestFrame, EventKind, Frame, request, response, event}
use browser_skill.Protocol.Handshake.{HandshakeCompat, Reason, evaluate_handshake_compat}
use browser_skill.Daemon.Browsers.{
  BrowserClient, Cell, insert_client, remove_if_generation_matches, stale_browsers, resolve, touch,
  mark_heartbeat_seen,
}
use browser_skill.Daemon.Sessions.{Session, purge_browser, get}
use browser_skill.Daemon.Queues.{remove_queue}
use browser_skill.Daemon.Interrupts.{mark, drop_session}
use browser_skill.Daemon.Inflight.{Snapshot, cancel_session}
use browser_skill.Daemon.State.{Daemon, with_cell}
use browser_skill.Daemon.Stop.{forget_session}
use browser_skill.Daemon.Cancel.{forward_snapshot}

-- `chrome-extension://`
abbrev pub prefix : List ℕ
prefix =
    b'c' ∷ b'h' ∷ b'r' ∷ b'o' ∷ b'm' ∷ b'e' ∷ b'-' ∷ b'e' ∷ b'x' ∷ b't' ∷ b'e' ∷ b'n' ∷ b's' ∷ b'i'
    ∷ b'o' ∷ b'n' ∷ b':' ∷ b'/' ∷ b'/' ∷ []

-- `str::strip_prefix`, on bytes.
strip_prefix : List ℕ → List ℕ → Option (List ℕ)
strip_prefix [] s = some s
strip_prefix (p ∷ ps) [] = none
strip_prefix (p ∷ ps) (b ∷ bs) = if p == b then strip_prefix ps bs else none

all_between : ℕ → ℕ → List ℕ → Bool
all_between lo hi [] = true
all_between lo hi (b ∷ bs) = leb lo b && leb b hi && all_between lo hi bs

unfoldable pub origin_allowed : List ℕ → Bool → Bool
unfolding strip_prefix all_between
origin_allowed origin allow_any = if allow_any then true else elim (strip_prefix prefix origin) [
  | none ↦ false
  | some rest ↦ length rest == 32 && all_between b'a' b'p' rest
]

-- `for s in … { tool_queues.remove(&s.id); session_interrupts.drop_session(&s.id) }`
drop_each : List Session → Daemon → Daemon
drop_each [] d = d
drop_each (s ∷ ss) d = drop_each ss (record d {
  tool_queues = (remove_queue s.id d.tool_queues).0;
  session_interrupts = drop_session s.id d.session_interrupts;
})

-- The sessions of a browser are unregistered, then their queues and marks.
unfoldable pub purge : String → Daemon → Daemon
unfolding drop_each
purge browser_id d =
    let (sessions, drained) = purge_browser browser_id d.sessions in
    drop_each drained (record d { sessions = sessions })

-- What the daemon reads of `HandshakeParams`; a version is the list of its bytes.
pub record HandshakeParams : Type 0 where
  pub version : String
  pub protocol_version : List ℕ
  pub instance_id : String
  pub browser_name : String
  pub browser_version : String
  pub label : String
  pub min_compatible_protocol : Option (List ℕ)

abbrev pub protocol_version : List ℕ
protocol_version = b'1' ∷ b'.' ∷ b'0' ∷ []

abbrev pub min_compatible_protocol : List ℕ
min_compatible_protocol = b'1' ∷ b'.' ∷ b'0' ∷ []

abbrev fresh_cell : ℕ → Cell
fresh_cell now = record {
  sent = [];
  sink_open = true;
  waiters = [];
  delivered = [];
  last_seen = now;
  heartbeat_seen = false;
}

-- The registration of an accepted extension. The new client's generation is the answer.
unfoldable pub connect : HandshakeParams → Bool → ℕ → ℕ → Daemon → Daemon × ℕ
connect p version_skew connected_at_ms now d =
    let d' = purge p.instance_id d in
    let g = d'.next_generation in
    let client : BrowserClient = record {
      id = p.instance_id;
      browser_name = p.browser_name;
      browser_version = p.browser_version;
      extension_version = p.version;
      extension_protocol_version = p.protocol_version;
      label = p.label;
      generation = g;
      connected_at_ms = connected_at_ms;
      version_skew = version_skew;
    } in
    (
      record (with_cell g (λ _. fresh_cell now) d') {
        browsers = insert_client client d'.browsers;
        next_generation = suc g;
      },
      g,
    )

-- How the first frame ends a connection, or starts it: dropped without an answer, refused with an
-- error, or connected as a client of the given generation.
pub data Handshake : Type 0 where
  dropped : Handshake
  kicked_not_handshake : Handshake
  kicked : Reason → Handshake
  connected : ℕ → Handshake

-- `decode` is the decoding of the parameters.
unfoldable pub begin_connection :
    (Value → Option HandshakeParams) → RequestFrame → ℕ → ℕ → Daemon → Daemon × Handshake
begin_connection decode frame connected_at_ms now d =
    ite (Method-discrete frame.method Method.system_handshake)
      (elim frame.params [
        | none ↦ (d, dropped)
        | some raw ↦ elim (decode raw) [
          | none ↦ (d, dropped)
          | some p ↦
              elim (evaluate_handshake_compat p.protocol_version p.min_compatible_protocol
                protocol_version min_compatible_protocol) [
                  | HandshakeCompat.reject reason ↦ (d, kicked reason)
                  | HandshakeCompat.skew ↦
                      (let (d', g) = connect p true connected_at_ms now d in (d', connected g))
                  | HandshakeCompat.ok ↦
                      (let (d', g) = connect p false connected_at_ms now d in (d', connected g))
                ]
        ]
      ])
      (d, kicked_not_handshake)

-- The receiver of a client's sink is dropped.
unfoldable pub close_sink : ℕ → Daemon → Daemon
close_sink g d = with_cell g (λ c. record c { sink_open = false }) d

-- The reply to the handshake: if it cannot be written, the connection ends there. The flag is whether
-- the pump runs.
unfoldable pub reply_handshake : Bool → ℕ → Daemon → Daemon × Bool
unfolding close_sink
reply_handshake written g d = if written then (d, true) else (close_sink g d, false)

-- The cleanup after the pump.
unfoldable pub disconnect : String → ℕ → Daemon → Daemon
unfolding close_sink
disconnect browser_id g d =
    let (browsers, removed) = remove_if_generation_matches browser_id g d.browsers in
    let d' = record d { browsers = browsers } in
    close_sink g (if is_some removed then purge browser_id d' else d')

-- A session that is registered for another browser than the sender.
abbrev pub is_foreign : String → String → Daemon → Bool
is_foreign sender sid d = elim (get sid d.sessions) [
  | none ↦ false
  | some s ↦ ite (text_discrete s.browser_id sender) false true
]

-- `view` is `payload.get("session_id").as_str()`. The reported failures are only logged.
unfoldable pub handle_session_window_closed :
    (Value → Option String) → String → Value → Daemon → Daemon
handle_session_window_closed view sender payload d = elim (view payload) [
  | none ↦ d
  | some sid ↦ if is_foreign sender sid d then d else (forget_session sid d).0
]

unfoldable pub extract_session_id : (Value → Option String) → Value → Option String
extract_session_id view payload = elim (view payload) [
  | none ↦ none
  | some sid ↦ ite (text_discrete sid "") none (some sid)
]

unfoldable pub forward_each : List Snapshot → Daemon → Daemon
forward_each [] d = d
forward_each (s ∷ ss) d = forward_each ss (forward_snapshot s d)

unfoldable pub handle_session_user_interrupt :
    (Value → Option String) → String → Value → Daemon → Daemon
unfolding extract_session_id forward_each
handle_session_user_interrupt view sender payload d = elim (extract_session_id view payload) [
  | none ↦ d
  | some sid ↦
      if is_foreign sender sid d
      then d
      else (let (registry, snapshots) = cancel_session sid d.tool_inflight in
          let d' = forward_each snapshots (record d { tool_inflight = registry }) in
          record d' { session_interrupts = mark sid d'.session_interrupts })
]

-- A frame from the extension; the client is given by its id and generation.
unfoldable pub handle_inbound_frame : (Value → Option String) → String → ℕ → Frame → Daemon → Daemon
handle_inbound_frame view sender g (response f) d = with_cell g (λ c. (resolve f c).0) d
handle_inbound_frame view sender g (request f) d = d
handle_inbound_frame view sender g (event e) d = elim e.event [
  | EventKind.system_heartbeat ↦ with_cell g mark_heartbeat_seen d
  | EventKind.session_window_closed ↦ handle_session_window_closed view sender e.payload d
  | EventKind.session_user_interrupt ↦ handle_session_user_interrupt view sender e.payload d
  | _ ↦ d
]

-- A message of the socket that the pump loop goes on after: a text, as the frame that it decodes to,
-- if any, and the rest.
pub data Message : Type 0 where
  text : Option Frame → Message
  binary ping pong raw : Message

unfoldable pub pump_inbound : (Value → Option String) → String → ℕ → ℕ → Message → Daemon → Daemon
pump_inbound view sender g now (text none) d = with_cell g (touch now) d
pump_inbound view sender g now (text (some f)) d =
    handle_inbound_frame view sender g f (with_cell g (touch now) d)
pump_inbound view sender g now binary d = d
pump_inbound view sender g now ping d = with_cell g (touch now) d
pump_inbound view sender g now pong d = with_cell g (touch now) d
pump_inbound view sender g now raw d = d

unfoldable pub reap_each : List BrowserClient → Daemon → Daemon
reap_each [] d = d
reap_each (c ∷ cs) d =
    let (browsers, removed) = remove_if_generation_matches c.id c.generation d.browsers in
    let d' = record d { browsers = browsers } in
    reap_each cs (if is_some removed then purge c.id d' else d')

-- One tick of `spawn_browser_liveness_reaper`.
unfoldable pub reap : ℕ → ℕ → Daemon → Daemon
unfolding reap_each
reap timeout now d = reap_each (stale_browsers d.cell timeout now d.browsers) d
