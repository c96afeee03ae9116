-- ===== src/Cli/Update/Upgrade.antt =====
-- When a tick of the update task changes the executable, and into what.
use browser_skill.Prelude.{
  ℕ, ◌≡◌, ◌≢◌, ◌⊎◌, inl, inr, refl, sym, subst, Bool, true, false, ◌&&◌, Option, none, some, List,
  [], String, arith, is_some, ◌==◌, if◌then◌else◌, Bool-cases, All, ◌∷◌,
}
use browser_skill.Files.{
  path_of, Bytes, FilePath, File, Disk, put_file, Outcome, Io, of_option, pure, World, Contents,
  read_file, tmp_beside, syscall,
}
use browser_skill.Files.Traces.{
  Through, Anything, put_file_self, put_file_other, read_file_keeps, bind_keeps, syscall-Keeps,
}
use browser_skill.Files.Writers.{plain_write, stamped_write, plain_write_keeps, stamped_write_keeps}
use browser_skill.Cli.Update.{
  UpdateManifest, UpdateCandidate, Candidate, action_replaced, auto_update_step, update_candidate,
  AutoUpdateOutcome,
}
use browser_skill.Cli.Update.Safe.{auto_update_step-changes, update_candidate_lem}
use browser_skill.Cli.Update.Install.{
  download_candidate_binary, replace_binary_atomically, update_tmp,
}
use browser_skill.Cli.Update.Replaced.{update_tmp-ne}
use browser_skill.Cli.Update.Tick.{
  Sources, Process, needs_refresh, write_update_cache, offered, refresh_update_cache,
  self_install_candidate, install, check, after_check, tick,
}
use browser_skill.Cli.Update.Verified.{
  download-IsVerified, IsUpgrade, offered-candidate, cache_text, offer, write, write_and_answer,
  answer, refresh-offered,
}

module _ {Version : Type 0} (s : Sources Version) (p : Process) (enabled : Bool) (sessions : ℕ)
    (parent : Option String) (name : Bytes) (before : Disk) where
  -- The executable is as before, or an upgrade.
  abbrev pub ExeOk : Disk → Type 0
  ExeOk d =
      let exe = path_of parent name in (d exe ≡ before exe) ⊎ IsUpgrade s p enabled sessions (d exe)

  elsewhere :
      (r : FilePath)
      → path_of parent name ≢ r
      → (f : Option File) (d : Disk) → ExeOk d
      → ExeOk (put_file r f d)
  elsewhere r away f d h =
      subst (λ o. (o ≡ before (path_of parent name)) ⊎ IsUpgrade s p enabled sessions o)
        (sym (put_file_other r (path_of parent name) f d away)) h

  replaced_keeps :
      (binary : Bytes) (w : World)
      → IsUpgrade s p enabled sessions (some (record { content = binary; mode = some 0o755 }))
      → Through ExeOk w
      → Through ExeOk (replace_binary_atomically p.pid (path_of parent name) binary w).0
  unfolding replace_binary_atomically
  replaced_keeps binary w up t =
      let exe = path_of parent name in
      let tmp = update_tmp p.pid exe name in
      bind_keeps ExeOk (of_option parent)
        (λ dir. stamped_write tmp exe binary action_replaced 0o755) w t
        (λ dir e.
          stamped_write_keeps ExeOk tmp exe binary action_replaced
            (elsewhere tmp (λ same. update_tmp-ne p.pid name parent (sym same))) 0o755
            (λ d h. inr (
              subst (IsUpgrade s p enabled sessions)
                (sym (put_file_self exe (some (record { content = binary; mode = some 0o755 })) d))
                up))
            w t)

  written_keeps :
      (payload : Bytes) (w : World)
      → path_of parent name ≢ p.cache_path
      → path_of parent name ≢ tmp_beside "update-check.json" p.pid p.cache_path
      → Through ExeOk w
      → Through ExeOk (write_update_cache p.pid p.cache_path payload w).0
  unfolding write_update_cache
  written_keeps payload w ne ne' t =
      let tmp = tmp_beside "update-check.json" p.pid p.cache_path in
      bind_keeps ExeOk (of_option p.cache_path.parent)
        (λ dir. plain_write tmp p.cache_path payload tt) w t
        (λ dir e.
          plain_write_keeps ExeOk tmp p.cache_path payload tt (elsewhere tmp ne')
            (λ f. elsewhere p.cache_path ne (some f)) w t)

  installed_keeps :
      (m : UpdateManifest Version) (c : UpdateCandidate Version) (w : World)
      → p.exe_path ≡ some (path_of parent name)
      → enabled ≡ true
      → sessions ≡ 0
      → s.manifest ≡ some m
      → update_candidate s.parse s.le s.show m p.version p.platform ≡ Candidate.candidate c
      → Through ExeOk w
      → Through ExeOk (install s p c w).0
  unfolding install self_install_candidate
  installed_keeps m c w located on idle served offer t =
      let same_path : (exe : FilePath) → p.exe_path ≡ some exe → path_of parent name ≡ exe =
        λ exe e. cc in
      let (parsed, latest, newer, built) =
        update_candidate_lem s.parse s.le s.show m p.version p.platform c offer in
      bind_keeps ExeOk (of_option p.exe_path) (self_install_candidate s p c) w t (λ exe e.
        bind_keeps ExeOk (of_option (download_candidate_binary s.fetch_bytes s.digest s.entries c))
          (replace_binary_atomically p.pid exe) w t
          (λ binary done.
            subst (λ x. Through ExeOk (replace_binary_atomically p.pid x binary w).0)
              (same_path exe e)
              (replaced_keeps binary w
                (record {
                  switched_on = on;
                  idle = idle;
                  manifest = m;
                  running = c.current;
                  asset = c.asset;
                  binary = binary;
                  served = served;
                  parsed = parsed;
                  newer = rw latest at newer;
                  built = built;
                  verified = download-IsVerified s c binary done;
                  whole = refl;
                })
                t)))

  module _ (now : ℕ) (apart : path_of parent name ≢ p.cache_path)
      (apart_tmp : path_of parent name ≢ tmp_beside "update-check.json" p.pid p.cache_path)
      (located : p.exe_path ≡ some (path_of parent name)) where
    refreshed_keeps :
        (w : World) → Through ExeOk w → Through ExeOk (refresh_update_cache s p now w).0
    unfolding refresh_update_cache
    refreshed_keeps w t = bind_keeps ExeOk (of_option s.manifest) (answer s p now) w t (λ m e.
        bind_keeps ExeOk (of_option (offer s p m)) (write_and_answer s p now m) w t (λ c e'.
          let kept = written_keeps (cache_text s m now) w apart apart_tmp t in
          bind_keeps ExeOk (write s p now m) (λ _. pure c) w kept (λ _ _. kept)))

    stepped_keeps :
        (v : World) (c : Option (UpdateCandidate Version)) (m : UpdateManifest Version)
        → s.manifest ≡ some m
        → offered s p (update_candidate s.parse s.le s.show m p.version p.platform) ≡ some c
        → Through ExeOk v
        → Through ExeOk
            (auto_update_step c (enabled && is_some p.exe_path) sessions (install s p) v).0
    stepped_keeps v none m served offer t =
        subst (Through ExeOk)
          (sym (
            auto_update_step-changes none (enabled && is_some p.exe_path) sessions (install s p) v))
          t
    stepped_keeps v (some c) m served offer t =
        subst (Through ExeOk)
          (sym (
            auto_update_step-changes (some c) (enabled && is_some p.exe_path) sessions (install s p)
              v))
          (elim (Bool-cases ((enabled && is_some p.exe_path) && sessions == 0)) [
            | inl may ↦ rw may (
                installed_keeps m c v located (ground arith) (ground arith) served
                  (offered-candidate s p _ c offer) t)
            | inr may_not ↦ rw may_not t
          ])

    checked_keeps :
        (w : World) → Through ExeOk w → Through ExeOk (check s p enabled sessions now w).0
    unfolding check
    checked_keeps w t =
        let step : Option (UpdateCandidate Version) → Io (AutoUpdateOutcome Version) = λ c v.
          let (v', outcome) =
            auto_update_step c (enabled && is_some p.exe_path) sessions (install s p) v in
          (v', some outcome) in
        bind_keeps ExeOk (refresh_update_cache s p now) step w (refreshed_keeps w t) (λ c e.
          let (m, served, offer) = refresh-offered s p now w c e in
          stepped_keeps (refresh_update_cache s p now w).0 c m served offer (refreshed_keeps w t))

    after_keeps :
        (o : AutoUpdateOutcome Version) (w : World)
        → Through ExeOk w
        → Through ExeOk (after_check s p o w).0
    unfolding after_check
    after_keeps (AutoUpdateOutcome.replaced latest) w t = from p.exe_path
      where
        spawned : World × Bool
        spawned = let (w', r) = syscall w in (w', is_some r)

        from :
            (exe : Option FilePath)
            → let end : World × Bool = elim exe [ none ↦ (w, false) | some x ↦ spawned ] in
              Through ExeOk end.0
        from none = t
        from (some x) = (syscall-Keeps ExeOk Anything w t tt).0
    after_keeps AutoUpdateOutcome.current w t = t
    after_keeps AutoUpdateOutcome.install_failed w t = t
    after_keeps (AutoUpdateOutcome.disabled latest) w t = t
    after_keeps (AutoUpdateOutcome.staged latest) w t = t
    after_keeps (AutoUpdateOutcome.postponed_sessions latest n) w t = t

    tick_keeps : (w : World) → Through ExeOk w → Through ExeOk (tick s p enabled sessions now w).0
    unfolding tick
    tick_keeps w t = from (needs_refresh s p now found)
      where
        v : World
        v = (read_file p.cache_path w).0

        found : Contents
        found = (read_file p.cache_path w).1

        u : World
        u = (check s p enabled sessions now v).0

        fine : Through ExeOk u
        fine = checked_keeps v (read_file_keeps ExeOk p.cache_path w t)

        over : (o : Option (AutoUpdateOutcome Version)) → World × Bool
        over o = elim o [ none ↦ (u, false) | some x ↦ after_check s p x u ]

        ended : (o : Option (AutoUpdateOutcome Version)) → Through ExeOk (over o).0
        ended none = fine
        ended (some x) = after_keeps x u fine

        from :
            (b : Bool)
            → let end : World × Bool =
                if b then over (check s p enabled sessions now v).1 else (v, false) in
              Through ExeOk end.0
        from true = ended (check s p enabled sessions now v).1
        from false = read_file_keeps ExeOk p.cache_path w t

-- Whatever the network serves and the system makes of the calls: at every moment of a tick of the
-- update task, the executable is as before, or it is, whole and with the mode 755, the binary of an
-- archive that was downloaded for this platform and whose SHA-256 checksum is the one that the
-- manifest lists; and then upgrades are on, no session was registered, and the manifest's version is
-- newer than the one that runs. The update cache and its temporary file must be other files than the
-- executable.
pub tick-IsUpgrade :
    {Version : Type 0} (s : Sources Version) (p : Process) (enabled : Bool) (sessions now : ℕ)
    (parent : Option String) (name : Bytes) (d : Disk) (os : List Outcome)
    → path_of parent name ≢ p.cache_path
    → path_of parent name ≢ tmp_beside "update-check.json" p.pid p.cache_path
    → p.exe_path ≡ some (path_of parent name)
    → let w = (tick s p enabled sessions now (record { now = d; past = []; outcomes = os })).0 in
      let exe = path_of parent name in
      All (λ d'. (d' exe ≡ d exe) ⊎ IsUpgrade s p enabled sessions (d' exe)) (w.now ∷ w.past)
tick-IsUpgrade s p enabled sessions now parent name d os apart apart_tmp located =
    tick_keeps s p enabled sessions parent name d now apart apart_tmp located
      (record { now = d; past = []; outcomes = os }) (inl refl, tt)
