-- ===== src/Cli/Update/Tick.antt =====
-- One tick of the daemon's update task: `refresh_update_cache`, the cache and
-- `self_install_candidate` in crates/bsk-cli/src/cli/update.rs, and the loop's body in
-- spawn_update_check_task of crates/bsk-cli/src/daemon/start.rs.
use browser_skill.Prelude.{
  ℕ, ◌*◌, ◌/◌, Bool, true, false, ◌&&◌, Option, none, some, List, String, is_some, if◌then◌else◌,
}
use browser_skill.Files.{
  Bytes, FilePath, Io, ◌>>=◌, ◌>>◌, pure, of_option, best_effort, World, syscall, write_synced,
  rename, Contents, absent, unreadable, contents, read_file, tmp_beside,
}
use browser_skill.Cli.Update.{
  UpdateCheckCache, UpdateManifest, UpdateCandidate, InstallAction, Candidate, AutoUpdateOutcome,
  replaced, cache_needs_refresh, update_candidate, auto_update_step,
}
use browser_skill.Cli.Update.Install.{
  ArchiveKind, ArchiveEntry, download_candidate_binary, replace_binary_atomically,
}

-- What other crates and the network give: versions, the manifest and the archives that are
-- downloaded, digests, the entries of archives, and the text of the cache.
pub record Sources (Version : Type 0) : Type 0 where
  pub parse : String → Option Version
  pub le : Version → Version → Bool
  pub show : Version → String
  pub manifest : Option (UpdateManifest Version)
  pub fetch_bytes : String → Option Bytes
  pub digest : Bytes → Bytes
  pub entries : ArchiveKind → Bytes → Option (List (Option ArchiveEntry))
  pub read_cache : Bytes → Option UpdateCheckCache
  pub show_cache : UpdateCheckCache → Bytes

-- The process: its id, its version and platform, and its executable where that is known.
pub record Process : Type 0 where
  pub pid : Bytes
  pub version : String
  pub platform : String
  pub exe_path : Option FilePath
  pub cache_path : FilePath

abbrev pub daemon_refresh_window : ℕ
daemon_refresh_window = 30 * 60 * 5 / 6

unfoldable pub write_update_cache : Bytes → FilePath → Bytes → Io (Unit {0})
unfolding tmp_beside
write_update_cache pid path payload = do
  dir ← of_option path.parent
  syscall
  let tmp = tmp_beside "update-check.json" pid path
  write_synced tmp payload
  rename tmp path
  best_effort syscall
  pure tt

module _ {Version : Type 0} (s : Sources Version) (p : Process) where
  -- Whether a tick does anything; a cache that cannot be read is refreshed.
  unfoldable pub needs_refresh : ℕ → Contents → Bool
  unfolding cache_needs_refresh
  needs_refresh now absent = true
  needs_refresh now unreadable = true
  needs_refresh now (contents c) = elim (s.read_cache c) [
    | none ↦ true
    | some cache ↦ cache_needs_refresh (some cache) now daemon_refresh_window
  ]

  -- `update_candidate` with its errors; the inner `none` is for no newer version.
  unfoldable pub offered : Candidate Version → Option (Option (UpdateCandidate Version))
  offered Candidate.up_to_date = some none
  offered (Candidate.candidate c) = some (some c)
  offered Candidate.unreadable_version = none
  offered Candidate.no_asset = none

  unfoldable pub refresh_update_cache : ℕ → Io (Option (UpdateCandidate Version))
  unfolding offered write_update_cache
  refresh_update_cache now = do
    manifest ← of_option s.manifest
    candidate ←
        of_option (offered (update_candidate s.parse s.le s.show manifest p.version p.platform))
    write_update_cache p.pid p.cache_path (
        s.show_cache
          (record { checked_at_epoch_secs = now; latest_version = s.show manifest.version }))
    pure candidate

  unfoldable pub self_install_candidate : UpdateCandidate Version → FilePath → Io InstallAction
  unfolding download_candidate_binary replace_binary_atomically
  self_install_candidate c target = do
    binary ← of_option (download_candidate_binary s.fetch_bytes s.digest s.entries c)
    replace_binary_atomically p.pid target binary

  unfoldable pub install : UpdateCandidate Version → Io InstallAction
  unfolding self_install_candidate
  install c = of_option p.exe_path >>= self_install_candidate c

  -- The blocking part of a tick; `enabled` is `auto_update_enabled`.
  unfoldable pub check : Bool → ℕ → ℕ → Io (AutoUpdateOutcome Version)
  unfolding refresh_update_cache auto_update_step install
  check enabled sessions now = do
    candidate ← refresh_update_cache now
    λ w.
        let (w', outcome) =
          auto_update_step candidate (enabled && is_some p.exe_path) sessions install w in
        (w', some outcome)

  -- A replacement daemon is started from a new binary; the answer is whether the daemon restarts.
  unfoldable pub after_check : AutoUpdateOutcome Version → World → World × Bool
  unfolding syscall
  after_check (replaced latest) w = elim p.exe_path [
    | none ↦ (w, false)
    | some exe ↦ (let (w', spawned) = syscall w in (w', is_some spawned))
  ]
  after_check _ w = (w, false)

  unfoldable pub tick : Bool → ℕ → ℕ → World → World × Bool
  unfolding needs_refresh check after_check read_file
  tick enabled sessions now w =
      let (v, found) = read_file p.cache_path w in
      if needs_refresh now found
      then (let (u, outcome) = check enabled sessions now v in
          elim outcome [ none ↦ (u, false) | some o ↦ after_check o u ])
      else (v, false)
