-- ===== src/Cli/Update/Command.antt =====
-- `bsk update`: `run` and `install_candidate_with_client` in crates/bsk-cli/src/cli/update.rs, and the
-- hints of the other commands. The daemon's stop and start are Daemon.Process; here they succeed or
-- fail.
use browser_skill.Prelude.{
  ◌≡◌, ◌≢◌, refl, Bool, true, false, not, ◌&&◌, Option, none, some, List, [], String, ℕ, ◌*◌, codes,
  map, if◌then◌else◌,
}
use browser_skill.Files.{
  Bytes, FilePath, path_of, Disk, Outcome, World, absent, unreadable, contents, read_file,
}
use browser_skill.Files.Atomic.{IsAtomic}
use browser_skill.Files.Writers.{IsStamped}
use browser_skill.Cli.Targets.{trim}
use browser_skill.Cli.Durations.{same}
use browser_skill.Cli.Update.{UpdateCheckCache, InstallAction, is_fresh, update_hint_for_cache}
use browser_skill.Cli.Update.Install.{to_ascii_lowercase, replace_binary_atomically, update_tmp}
use browser_skill.Cli.Update.Replaced.{replace_binary_atomically-IsAtomic}

-- Upgrades are on unless the variable is `off`, in any case and with any blanks around it.
unfoldable pub auto_update_enabled_from : Option (List ℕ) → Bool
unfolding trim same to_ascii_lowercase
auto_update_enabled_from none = true
auto_update_enabled_from (some value) =
    not (same (map to_ascii_lowercase (trim value)) (codes "off"))

-- The hint of a command, from a cache that is there, fresh and names a newer version.
unfoldable pub cached_update_hint :
    {Version : Type 0}
    → (String → Option Version)
    → (Version → Version → Bool)
    → (Version → String)
    → (Bytes → Option UpdateCheckCache)
    → FilePath
    → String
    → ℕ
    → Bool
    → World
    → World × Option (Option String)
unfolding is_fresh update_hint_for_cache read_file
cached_update_hint parse le show decode cache_path current now auto_update w =
    let (w', found) = read_file cache_path w in
    elim found [
      | absent ↦ (w', some none)
      | unreadable ↦ (w', none)
      | contents c ↦ elim (decode c) [
        | none ↦ (w', none)
        | some cache ↦ (
          w',
          some (
              if is_fresh cache now (30 * 60)
              then update_hint_for_cache parse le show cache current auto_update
              else none),
        )
      ]
    ]

-- The daemon as the update finds it: whether daemon.json can be read and names a live process, and
-- whether the daemon can be stopped and started.
pub record DaemonSide : Type 0 where
  pub running : Option Bool
  pub stops : Bool
  pub starts : Bool

pub data Installed : Type 0 where
  -- Whether the daemon was restarted.
  installed : Bool → Installed
  -- Nothing was replaced.
  not_replaced : Installed
  -- The daemon was stopped, and the binary could not be replaced.
  stopped_only : Installed
  -- The binary was replaced, and the daemon could not be started again.
  not_restarted : Installed

replaced_with : Bool → Bool → World × Option InstallAction → World × Installed
replaced_with was_running starts (w, none) = (w, if was_running then stopped_only else not_replaced)
replaced_with was_running starts (w, some action) =
    (w, if was_running && not starts then not_restarted else installed was_running)

-- `binary` is what was downloaded, checked and unpacked, and `exe` the current executable.
unfoldable pub install_candidate_with_client :
    Bytes → Option Bytes → Option FilePath → Bool → DaemonSide → World → World × Installed
unfolding replaced_with replace_binary_atomically
install_candidate_with_client pid none exe restart_daemon d w = (w, not_replaced)
install_candidate_with_client pid (some binary) none restart_daemon d w = (w, not_replaced)
install_candidate_with_client pid (some binary) (some target) restart_daemon d w =
    elim (if restart_daemon then d.running else some false) [
      | none ↦ (w, not_replaced)
      | some was_running ↦
          if was_running && not d.stops
          then (w, not_replaced)
          else replaced_with was_running d.starts (replace_binary_atomically pid target binary w)
    ]

-- What an end of the installation says of the executable.
abbrev pub Says : FilePath → FilePath → Bytes → Disk → World × Installed → Type 0
Says tmp target binary before (w, installed restarted) = IsStamped binary 0o755 (w.now target)
Says tmp target binary before (w, not_restarted) = IsStamped binary 0o755 (w.now target)
Says tmp target binary before (w, not_replaced) = (p : FilePath) → p ≢ tmp → w.now p ≡ before p
Says tmp target binary before (w, stopped_only) = (p : FilePath) → p ≢ tmp → w.now p ≡ before p

replaced_with-Says :
    (tmp target : FilePath) (binary : Bytes) (before : Disk) (was_running starts : Bool)
    (r : World × Option InstallAction)
    → IsAtomic (IsStamped binary 0o755) tmp target before r
    → Says tmp target binary before (replaced_with was_running starts r)
unfolding replaced_with
replaced_with-Says tmp target binary before true starts (w, none) a = a.ends
replaced_with-Says tmp target binary before false starts (w, none) a = a.ends
replaced_with-Says tmp target binary before true true (w, some x) a = a.ends
replaced_with-Says tmp target binary before true false (w, some x) a = a.ends
replaced_with-Says tmp target binary before false starts (w, some x) a = a.ends

-- Whatever the system makes of the calls, and however the daemon behaves: where the update says that
-- it has installed the new binary, or that it only could not start the daemon again, the executable
-- is the whole new binary; and where it says that it has not replaced it, every file but the
-- temporary one is as before.
pub install_candidate_with_client-Says :
    (pid name binary : Bytes) (parent : Option String) (restart_daemon : Bool) (side : DaemonSide)
    (d : Disk) (os : List Outcome)
    → let target = path_of parent name in
      Says (update_tmp pid target name) target binary d (
        install_candidate_with_client pid
          (some binary)
          (some target)
          restart_daemon
          side
          (record { now = d; past = []; outcomes = os }))
unfolding install_candidate_with_client
install_candidate_with_client-Says pid name binary parent restart_daemon side d os =
    from (if restart_daemon then side.running else some false)
  where
    target : FilePath
    target = path_of parent name

    w : World
    w = record { now = d; past = []; outcomes = os }

    ended : Bool → Bool → World × Installed
    ended was_running blocked =
        if blocked
        then (w, not_replaced)
        else replaced_with was_running side.starts (replace_binary_atomically pid target binary w)

    at :
        (was_running blocked : Bool)
        → Says (update_tmp pid target name) target binary d (ended was_running blocked)
    at was_running true = λ p ne. refl
    at was_running false =
        replaced_with-Says (update_tmp pid target name) target binary d was_running side.starts
          (replace_binary_atomically pid target binary w)
          (replace_binary_atomically-IsAtomic pid name binary parent d os).1

    from :
        (r : Option Bool)
        → let end : World × Installed = elim r [
          | none ↦ (w, not_replaced)
          | some was_running ↦ ended was_running (was_running && not side.stops)
        ] in
          Says (update_tmp pid target name) target binary d end
    from none = λ p ne. refl
    from (some was_running) = at was_running (was_running && not side.stops)
