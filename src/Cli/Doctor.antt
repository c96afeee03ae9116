-- ===== src/Cli/Doctor.antt =====
-- `bsk doctor`: crates/bsk-cli/src/cli/doctor.rs. The details of a check are left out.
pub mod Healthy
use Prim.Native.String.{◌++◌ as ◌<>◌}
use browser_skill.Prelude.{
  ℕ, Bool, true, false, not, ◌||◌, Option, none, some, List, [], ◌∷◌, String, ltb, ◌==◌, ite,
  text_discrete, if◌then◌else◌,
}
use browser_skill.Daemon.Process.{InfoRead, absent, unreadable, info}
use browser_skill.Skill.Sync.{SyncReport}

pub data CheckStatus : Type 0 where
  check_ok check_fail not_applicable : CheckStatus

pub record CheckResult : Type 0 where
  pub name : String
  pub ok : Bool
  pub status : CheckStatus
  pub hint : Option String

abbrev passes : String → CheckResult
passes name = record { name = name; ok = true; status = check_ok; hint = none }

abbrev fail : String → String → CheckResult
fail name hint = record { name = name; ok = false; status = check_fail; hint = some hint }

abbrev na : String → CheckResult
na name = record { name = name; ok = true; status = not_applicable; hint = none }

is_fail : CheckStatus → Bool
is_fail check_fail = true
is_fail _ = false

unfoldable pub has_failures : List CheckResult → Bool
unfolding is_fail
has_failures [] = false
has_failures (c ∷ cs) = is_fail c.status || has_failures cs

-- A daemon's status, as far as the checks look at it.
pub record StatusResult : Type 0 where
  pub pid : ℕ
  pub protocol_version : String
  pub browsers : ℕ
  pub version_skew_browsers : ℕ

pub data DaemonState : Type 0 where
  missing read_error : DaemonState
  stale_dead ipc_unreachable : ℕ → DaemonState
  pid_mismatch : ℕ → StatusResult → DaemonState
  verified : StatusResult → DaemonState

-- `DaemonState::status`
status_of : DaemonState → Option StatusResult
status_of (verified s) = some s
status_of (pid_mismatch pid s) = some s
status_of _ = none

-- daemon.json, whether its pid is alive, and what its socket answers.
unfoldable pub current_state : InfoRead → Bool → Option StatusResult → DaemonState
current_state absent alive answer = missing
current_state unreadable alive answer = read_error
current_state (info pid) alive answer = if not alive then stale_dead pid else elim answer [
  | none ↦ ipc_unreachable pid
  | some s ↦ if s.pid == pid then verified s else pid_mismatch pid s
]

needs_daemon : DaemonState → Bool
needs_daemon missing = true
needs_daemon (stale_dead pid) = true
needs_daemon _ = false

needs_browser_wait : DaemonState → Bool
needs_browser_wait (verified s) = s.browsers == 0
needs_browser_wait _ = false

-- The state at first, whether a daemon could be ensured, the state after that, and the state after a
-- wait of `wait` milliseconds for a browser.
unfoldable pub resolve_daemon_state :
    DaemonState → Bool → DaemonState → ℕ → DaemonState → DaemonState
unfolding needs_daemon needs_browser_wait
resolve_daemon_state first ensured second wait last =
    if needs_daemon first
    then (if ensured
        then (if needs_browser_wait second then (if wait == 0 then second else last) else second)
        else second)
    else (if needs_browser_wait first then (if wait == 0 then first else last) else first)

check_home_writable : Bool → CheckResult
check_home_writable true = passes "bsk home writable"
check_home_writable false = fail "bsk home writable" "ensure $HOME or $BSK_HOME is writable"

-- After a sync of the skills; `none` if there is no home directory.
check_skill_up_to_date : Option SyncReport → CheckResult
check_skill_up_to_date none = fail "agent skill up to date" "ensure $HOME is set"
check_skill_up_to_date (some report) = elim report.errors [
  | e ∷ es ↦
      fail "agent skill up to date"
        "re-run `bsk install-skill --force --harness <id>` for the failing harness"
  | [] ↦ elim report.updated [
    | h ∷ hs ↦ passes "agent skill up to date"
    | [] ↦ elim report.up_to_date [
      | h ∷ hs ↦ passes "agent skill up to date"
      | [] ↦ na "agent skill up to date"
    ]
  ]
]

check_daemon_running : DaemonState → CheckResult
check_daemon_running (verified s) = passes "daemon running"
check_daemon_running missing =
    fail "daemon running" "run `bsk daemon start` or any `bsk` command (daemon is auto-spawned)"
check_daemon_running read_error = fail "daemon running" "check permissions on ~/.bsk"
check_daemon_running (stale_dead pid) =
    fail "daemon running" "run `bsk daemon start` (or delete ~/.bsk/daemon.json)"
check_daemon_running (ipc_unreachable pid) =
    fail "daemon running" "run `bsk daemon restart`, then check `bsk logs`"
check_daemon_running (pid_mismatch pid s) =
    fail "daemon running" "daemon.json is stale; run `bsk daemon stop && bsk status` to reset"

check_version_compatible : Option StatusResult → CheckResult
check_version_compatible none = fail "protocol compatible" "start the daemon first"
check_version_compatible (some s) =
    ite (text_discrete s.protocol_version "1.0") (passes "protocol compatible") (
      fail "protocol compatible"
        "upgrade or restart bsk so CLI and daemon speak the same protocol version")

check_extension_connected : Option StatusResult → CheckResult
check_extension_connected none =
    fail "extension connected" "start the daemon and load the extension first"
check_extension_connected (some s) =
    if ltb 0 s.browsers
    then passes "extension connected"
    else fail "extension connected" (
        "install the extension from https://chromewebstore.google.com/detail/"
        <> "hhcmgoofomhgciiibhipgmgkgnoenaoi and load it in Chromium")

check_browsers_protocol_compatible : Option StatusResult → CheckResult
check_browsers_protocol_compatible none =
    fail "browser protocol compatible" "start the daemon and load the extension first"
check_browsers_protocol_compatible (some s) =
    if s.browsers == 0
    then na "browser protocol compatible"
    else (if s.version_skew_browsers == 0
        then passes "browser protocol compatible"
        else fail "browser protocol compatible" (
            "upgrade the browser-skill extension or bsk CLI so both sides use the same "
            <> "protocol version"))

unfoldable pub collect_checks : Bool → Option SyncReport → DaemonState → List CheckResult
unfolding status_of check_home_writable check_skill_up_to_date check_daemon_running
    check_version_compatible check_extension_connected check_browsers_protocol_compatible
collect_checks home_writable skills state =
    check_home_writable home_writable
    ∷ check_skill_up_to_date skills
    ∷ check_daemon_running state
    ∷ check_version_compatible (status_of state)
    ∷ check_extension_connected (status_of state)
    ∷ check_browsers_protocol_compatible (status_of state)
    ∷ []
