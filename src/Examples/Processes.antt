-- ===== src/Examples/Processes.antt =====
-- Runs of the daemon's start and stop, of the reaper of idle sessions, of the status, and of the
-- doctor.
use browser_skill.Prelude.{
  ◌≡◌, ◌↔◌, refl, true, false, none, some, [], ◌∷◌, All, map, is_some, ite, text_discrete,
}
use browser_skill.Map.{lookup, contains, passes}
use browser_skill.Protocol.Frame.{Value}
use browser_skill.Cli.Targets.{Text, is_whitespace}
use browser_skill.Cli.Durations.{parsed, parse_duration}
use browser_skill.Daemon.Process.{
  StartArgs, Status, info, Look, ready, run_start, run_stop, format_duration,
}
use browser_skill.Daemon.Process.Handover.{parse_duration-format_duration}
use browser_skill.Daemon.Process.Control.{IsJustified, run_stop-IsJustified}
use browser_skill.Daemon.Process.Starts.{Serves, run_start-Serves}
use browser_skill.Daemon.State.{Daemon}
use browser_skill.Daemon.Stop.{answered, end_stop}
use browser_skill.Daemon.Reaper.{begin_reap, end_reap, is_over, end_reap-begin_reap}
use browser_skill.Daemon.Status.{DaemonStatus, snapshot_with}
use browser_skill.Daemon.Status.Complete.{snapshot_with-IsReachable}
use browser_skill.Daemon.System.{start, step, at_start, after}
use browser_skill.Cli.Doctor
use browser_skill.Cli.Doctor.{DaemonState, verified, has_failures, collect_checks}
use browser_skill.Cli.Doctor.Healthy.{IsSynced, IsServing, has_failures-collect_checks}
use browser_skill.Skill.Sync.{SyncReport}
use browser_skill.Examples.{daemon}
use browser_skill.Examples.Lifecycles.{decode_stop}
use browser_skill.Examples.Reachability.{arrival}

abbrev ninety_seconds : Text
ninety_seconds = b'9' ∷ b'0' ∷ b's' ∷ []

parse_duration-format_duration_example : parse_duration (format_duration 90000) ≡ parsed 90000
unfolding parse_duration is_whitespace
parse_duration-format_duration_example = parse_duration-format_duration ninety_seconds 90000 refl

abbrev answer : Status
answer = record { pid = 7; ws_port = 52800 }

abbrev running : Look
running = record { read = info 7; alive = true; confirm = some answer }

abbrev dead : Look
dead = record { read = info 7; alive = false; confirm = none }

-- The process does not go before the deadline.
run_stop-IsJustified_example : IsJustified running (run_stop running true (true ∷ true ∷ []))
run_stop-IsJustified_example = run_stop-IsJustified running true (true ∷ true ∷ [])

abbrev args : StartArgs
args = record { port = some 52800; foreground = false; session_idle = none; daemon_idle = none }

run_start-Serves_example :
    Serves args dead (dead ∷ running ∷ []) (run_start args false dead true (dead ∷ running ∷ []))
run_start-Serves_example = run_start-Serves args false dead true (dead ∷ running ∷ [])

-- A test: this start does find the daemon that it has spawned.
starts : run_start args false dead true (dead ∷ running ∷ []) ≡ ready answer
unfolding run_start
starts = refl

-- A daemon in which no session has a browser.
abbrev orphaned : Daemon
orphaned = record daemon { browsers = [] }

end_reap-begin_reap_example :
    (lookup "s2" (begin_reap "s2" orphaned).0.sessions.inner ≡ none)
    × (lookup "s2" (end_reap decode_stop "s2" (answered (Value.string "{}")) daemon).sessions.inner
        ≡ elim (is_over (end_stop decode_stop "s2" (answered (Value.string "{}")) daemon).1) [
          | true ↦ ite (text_discrete "s2" "s2") none (lookup "s2" daemon.sessions.inner)
          | false ↦ lookup "s2" daemon.sessions.inner
        ])
unfolding lookup text_discrete
end_reap-begin_reap_example =
    end_reap-begin_reap decode_stop "s2" "s2" (answered (Value.string "{}")) orphaned daemon

abbrev about_daemon : DaemonStatus
about_daemon = record {
  daemon_version = "1.0.0";
  protocol_version = "1.0";
  pid = 7;
  uptime_secs = 60;
  ws_port = 52800;
  sock_path = "/opt/home/daemon.sock";
}

abbrev connected : Daemon
connected = step start arrival

snapshot_with-IsReachable_example :
    let status = snapshot_with about_daemon connected in
    (contains "b1" (map (λ e. e.instance_id) status.browsers)
      ≡ is_some (lookup "b1" connected.browsers))
    × (contains "b1" (map (λ e. e.instance_id) status.version_skew_browsers)
        ≡ passes (λ c. c.version_skew) (lookup "b1" connected.browsers))
    × All
        (λ e. contains e.browser_instance_id (map (λ b. b.instance_id) status.browsers) ≡ true)
        status.sessions
snapshot_with-IsReachable_example =
    snapshot_with-IsReachable about_daemon connected "b1" (after at_start arrival)

abbrev serving : Doctor.StatusResult
serving = record { pid = 7; protocol_version = "1.0"; browsers = 1; version_skew_browsers = 0 }

abbrev report : SyncReport
report = record { updated = []; up_to_date = []; errors = [] }

has_failures-collect_checks_example :
    (has_failures (collect_checks true (some report) (verified serving)) ≡ false)
    ↔ ((true ≡ true) × IsSynced (some report) × IsServing (verified serving))
has_failures-collect_checks_example =
    has_failures-collect_checks true (some report) (verified serving)
