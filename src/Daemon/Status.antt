-- ===== src/Daemon/Status.antt =====
-- What the daemon tells of its clients and sessions: the status and the lists in
-- crates/bsk-cli/src/daemon/ipc.rs, and the sorted entries in sessions.rs.
pub mod Complete
use browser_skill.Prelude.{
  ℕ, Option, Bool, true, false, ◌&&◌, ◌||◌, List, [], ◌∷◌, map, String, ltb, ◌==◌, if◌then◌else◌,
}
use browser_skill.Map.{values}
use browser_skill.Daemon.Browsers.{BrowserClient, Registry}
use browser_skill.Daemon.Sessions.{Session, Sessions, count_for_browser}
use browser_skill.Daemon.State.{Daemon}

pub record BrowserStatusEntry : Type 0 where
  pub instance_id : String
  pub browser_name : String
  pub browser_version : String
  pub extension_version : String
  pub label : String
  pub session_count : ℕ
  pub connected_at_ms : ℕ
  pub version_skew : Bool
  pub extension_protocol_version : List ℕ

pub record VersionSkewEntry : Type 0 where
  pub instance_id : String
  pub browser_name : String
  pub label : String
  pub server_version : String
  pub client_version : String
  pub server_protocol_version : String
  pub client_protocol_version : List ℕ

pub record SessionStatusEntry : Type 0 where
  pub session_id : String
  pub browser_instance_id : String
  pub agent_window_id : Option ℕ
  pub created_at_ms : ℕ

-- What the process knows of itself; the uptime is in seconds.
pub record DaemonStatus : Type 0 where
  pub daemon_version : String
  pub protocol_version : String
  pub pid : ℕ
  pub uptime_secs : ℕ
  pub ws_port : ℕ
  pub sock_path : String

pub record StatusResult : Type 0 where
  pub daemon : DaemonStatus
  pub browsers : List BrowserStatusEntry
  pub sessions : List SessionStatusEntry
  pub version_skew_browsers : List VersionSkewEntry

browser_entry : BrowserClient → ℕ → BrowserStatusEntry
browser_entry c count = record {
  instance_id = c.id;
  browser_name = c.browser_name;
  browser_version = c.browser_version;
  extension_version = c.extension_version;
  label = c.label;
  session_count = count;
  connected_at_ms = c.connected_at_ms;
  version_skew = c.version_skew;
  extension_protocol_version = c.extension_protocol_version;
}

session_entry : Session → SessionStatusEntry
session_entry s = record {
  session_id = s.id;
  browser_instance_id = s.browser_id;
  agent_window_id = s.agent_window_id;
  created_at_ms = s.created_at_ms;
}

skew_entry : DaemonStatus → BrowserClient → VersionSkewEntry
skew_entry t c = record {
  instance_id = c.id;
  browser_name = c.browser_name;
  label = c.label;
  server_version = t.daemon_version;
  client_version = c.extension_version;
  server_protocol_version = t.protocol_version;
  client_protocol_version = c.extension_protocol_version;
}

-- The walk over the clients, which also notes those of another protocol version.
walk :
    DaemonStatus → Sessions → List BrowserClient → List BrowserStatusEntry × List VersionSkewEntry
unfolding browser_entry skew_entry count_for_browser
walk t r [] = ([], [])
walk t r (c ∷ cs) =
    let (browsers, skewed) = walk t r cs in
    (
      browser_entry c (count_for_browser c.id r) ∷ browsers,
      if c.version_skew then skew_entry t c ∷ skewed else skewed,
    )

session_entries : Sessions → List SessionStatusEntry
unfolding session_entry
session_entries r = map session_entry (values r.inner)

unfoldable pub snapshot_with : DaemonStatus → Daemon → StatusResult
unfolding walk session_entries
snapshot_with t d =
    let (browsers, skewed) = walk t d.sessions (values d.browsers) in
    record {
      daemon = t;
      browsers = browsers;
      sessions = session_entries d.sessions;
      version_skew_browsers = skewed;
    }

unfoldable pub handle_session_list : Daemon → List SessionStatusEntry
unfolding session_entries
handle_session_list d = session_entries d.sessions

-- The order of the sorted entries; `less` is that of texts.
module _ (less : String → String → Bool) where
  before : BrowserStatusEntry → BrowserStatusEntry → Bool
  before a b =
      ltb a.connected_at_ms b.connected_at_ms
      || (a.connected_at_ms == b.connected_at_ms && less a.instance_id b.instance_id)

  insert_entry : BrowserStatusEntry → List BrowserStatusEntry → List BrowserStatusEntry
  unfolding before
  insert_entry e [] = e ∷ []
  insert_entry e (x ∷ xs) =
      let rest = insert_entry e xs in if before x e then x ∷ rest else e ∷ x ∷ xs

  sort_entries : List BrowserStatusEntry → List BrowserStatusEntry
  unfolding insert_entry
  sort_entries [] = []
  sort_entries (x ∷ xs) = insert_entry x (sort_entries xs)

  -- `snapshot_status_entries`, which is what `handle_browser_list` answers.
  unfoldable pub snapshot_status_entries : Registry → Sessions → List BrowserStatusEntry
  unfolding sort_entries browser_entry count_for_browser
  snapshot_status_entries b r =
      sort_entries (map (λ c. browser_entry c (count_for_browser c.id r)) (values b))
