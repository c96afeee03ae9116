-- ===== src/Daemon/Process.antt =====
-- Starting and stopping the daemon's process: crates/bsk-cli/src/daemon/start.rs (run_start, run_stop
-- and their helpers, the idle exit) and info.rs. Durations are milliseconds.
pub mod Info
pub mod Handover
pub mod Control
pub mod Starts
use browser_skill.Prelude.{
  ◌*◌, ℕ, ◌+◌, ◌/◌, ◌%◌, Bool, true, false, not, ◌&&◌, ◌||◌, Option, none, some, List, [], ◌∷◌,
  ◌++◌, String, codes, is_some, ltb, ◌==◌, if◌then◌else◌,
}
use browser_skill.Digits.{show_decimal}
use browser_skill.Cli.Targets.{Text}

pub record StartArgs : Type 0 where
  pub port : Option ℕ
  pub foreground : Bool
  pub session_idle : Option ℕ
  pub daemon_idle : Option ℕ

pub record DaemonConfig : Type 0 where
  pub ws_port : ℕ
  pub session_idle : ℕ
  pub daemon_idle : ℕ

or_default : Option ℕ → ℕ → ℕ
or_default none d = d
or_default (some n) d = n

-- `DaemonConfig::from`, with the defaults of the arguments.
unfoldable pub config_of : StartArgs → DaemonConfig
unfolding or_default
config_of args = record {
  ws_port = or_default args.port 52800;
  session_idle = or_default args.session_idle (5 * 60 * 1000);
  daemon_idle = or_default args.daemon_idle (10 * 60 * 1000);
}

unfoldable pub restart_start_args : DaemonConfig → StartArgs
restart_start_args cfg = record {
  port = some cfg.ws_port;
  foreground = false;
  session_idle = some cfg.session_idle;
  daemon_idle = some cfg.daemon_idle;
}

unfoldable pub format_duration : ℕ → Text
unfolding show_decimal
format_duration ms =
    if ms % 1000 == 0 then show_decimal (ms / 1000) ++ codes "s" else show_decimal ms ++ codes "ms"

flag : String → (ℕ → Text) → Option ℕ → List Text
flag name show none = []
flag name show (some n) = codes name ∷ show n ∷ []

-- The command line of a detached daemon.
unfoldable pub apply_start_args : StartArgs → List Text
unfolding flag format_duration show_decimal
apply_start_args args =
    codes "daemon"
    ∷ codes "start"
    ∷ (flag "--port" show_decimal args.port
        ++ (flag "--session-idle" format_duration args.session_idle
            ++ flag "--daemon-idle" format_duration args.daemon_idle))

-- What `system.status` answers, as far as it is looked at here.
pub record Status : Type 0 where
  pub pid : ℕ
  pub ws_port : ℕ

-- daemon.json, as far as it is looked at here: the pid of the daemon. `absent` also stands for no file.
pub data InfoRead : Type 0 where
  absent unreadable : InfoRead
  info : ℕ → InfoRead

-- `read_valid`, where the pid is alive.
unfoldable pub valid : Bool → InfoRead → InfoRead
valid alive (info pid) = if alive then info pid else absent
valid alive absent = absent
valid alive unreadable = unreadable

-- `confirm_daemon` answered with the pid of daemon.json.
unfoldable pub confirmed : ℕ → Option Status → Option Status
confirmed pid none = none
confirmed pid (some s) = if s.pid == pid then some s else none

-- One look at daemon.json: the file, whether its pid is alive, and what the daemon there answers.
pub record Look : Type 0 where
  pub read : InfoRead
  pub alive : Bool
  pub confirm : Option Status

-- `none` for an error.
unfoldable pub verified_existing_daemon : Look → Option (Option Status)
unfolding valid confirmed
verified_existing_daemon l = elim (valid l.alive l.read) [
  | unreadable ↦ none
  | absent ↦ some none
  | info pid ↦ some (confirmed pid l.confirm)
]

unfoldable pub asks_other : Option ℕ → ℕ → Bool
asks_other none actual = false
asks_other (some p) actual = not (p == actual)

unfoldable pub validate_existing_start : StartArgs → Status → Bool
unfolding asks_other
validate_existing_start args s =
    not (asks_other args.port s.ws_port || (is_some args.session_idle || is_some args.daemon_idle))

-- The loop over the looks until the deadline; the last look that the deadline allows is the last one.
unfoldable pub wait_for_ready : Option ℕ → List Look → Option Status
unfolding valid confirmed asks_other
wait_for_ready expected [] = none
wait_for_ready expected (l ∷ ls) =
    let rest = wait_for_ready expected ls in
    elim (valid l.alive l.read) [
      | unreadable ↦ none
      | absent ↦ rest
      | info pid ↦ elim (confirmed pid l.confirm) [
        | none ↦ rest
        | some s ↦ if asks_other expected s.ws_port then none else some s
      ]
    ]

-- `args.port.filter(|port| *port != 0)`
unfoldable pub fixed_port : Option ℕ → Option ℕ
fixed_port none = none
fixed_port (some p) = if p == 0 then none else some p

pub data Started : Type 0 where
  runs_here : DaemonConfig → Started
  already_running ready : Status → Started
  start_failed : Started

-- `run_start`, given the first look, whether the spawn succeeds, and the looks that follow it.
unfoldable pub run_start : StartArgs → Bool → Look → Bool → List Look → Started
unfolding config_of verified_existing_daemon validate_existing_start wait_for_ready fixed_port
run_start args daemonized_child first spawns looks =
    if args.foreground || daemonized_child
    then runs_here (config_of args)
    else elim (verified_existing_daemon first) [
      | none ↦ start_failed
      | some (some s) ↦ if validate_existing_start args s then already_running s else start_failed
      | some none ↦
          if spawns
          then elim (wait_for_ready (fixed_port args.port) looks) [
            | none ↦ start_failed
            | some s ↦ ready s
          ]
          else start_failed
    ]

pub data Signal : Type 0 where
  term kill : ℕ → Signal

pub data StopEnd : Type 0 where
  nothing_to_stop cleaned_up stopped killed refused stop_failed : StopEnd

pub record StopRun : Type 0 where
  pub signals : List Signal
  pub removes_info : Bool
  pub end : StopEnd

-- Whether the process was seen to be gone at one of the polls before the deadline.
unfoldable pub gone : List Bool → Bool
gone [] = false
gone (alive ∷ polls) = let rest = gone polls in if alive then rest else true

-- `run_stop`, given a look at daemon.json, whether SIGTERM can be sent, and the polls of the pid.
unfoldable pub run_stop : Look → Bool → List Bool → StopRun
unfolding gone confirmed
run_stop l term_sent polls = elim l.read [
  | unreadable ↦ record { signals = []; removes_info = false; end = stop_failed }
  | absent ↦ record { signals = []; removes_info = false; end = nothing_to_stop }
  | info pid ↦
      if not l.alive
      then record { signals = []; removes_info = true; end = cleaned_up }
      else elim (confirmed pid l.confirm) [
        | none ↦ record { signals = []; removes_info = false; end = refused }
        | some s ↦
            if not term_sent
            then record { signals = term pid ∷ []; removes_info = false; end = stop_failed }
            else (if gone polls
                then record { signals = term pid ∷ []; removes_info = true; end = stopped }
                else record {
                  signals = term pid ∷ kill pid ∷ [];
                  removes_info = true;
                  end = killed;
                })
      ]
]

-- A tick of the idle task: whether the daemon exits.
unfoldable pub idle_exit : ℕ → ℕ → ℕ → Bool → Bool → Bool
idle_exit daemon_idle elapsed ipc_connections no_browsers no_sessions =
    not (ltb elapsed daemon_idle)
    && not (ltb 0 ipc_connections || (not no_browsers || not no_sessions))
