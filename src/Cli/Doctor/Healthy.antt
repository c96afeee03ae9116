-- ===== src/Cli/Doctor/Healthy.antt =====
-- When the doctor finds nothing wrong.
use browser_skill.Prelude.{
  ◌<◌, ◌≡◌, ◌↔◌, refl, Bool, true, false, ◌||◌, Option, none, some, [], arith,
}
use browser_skill.Skill.Sync.{SyncReport}
use browser_skill.Cli.Doctor.{
  StatusResult, DaemonState, missing, read_error, stale_dead, ipc_unreachable, pid_mismatch,
  verified, is_fail, has_failures, check_home_writable, check_skill_up_to_date,
  check_version_compatible, check_extension_connected, check_browsers_protocol_compatible,
  collect_checks,
}

-- A report of a sync without errors.
abbrev pub IsSynced : Option SyncReport → Type 0
IsSynced none = ⊥
IsSynced (some r) = r.errors ≡ []

-- A daemon that is the one of daemon.json, speaks this protocol, and has a browser, and no browser
-- of another version.
abbrev pub IsServing : DaemonState → Type 0
IsServing (verified s) =
    (s.protocol_version ≡ "1.0") × (0 < s.browsers) × (s.version_skew_browsers ≡ 0)
IsServing _ = ⊥

or_false : (a b : Bool) → (a || b) ≡ false → (a ≡ false) × (b ≡ false)
or_false a b h = (ground arith, ground arith)

home_lem : (home : Bool) → (is_fail (check_home_writable home).status ≡ false) ↔ (home ≡ true)
unfolding check_home_writable is_fail
home_lem true = (λ h. refl, λ h. refl)
home_lem false = (λ h. absurd (cc), λ h. absurd (cc))

skills_lem :
    (skills : Option SyncReport)
    → (is_fail (check_skill_up_to_date skills).status ≡ false) ↔ IsSynced skills
unfolding check_skill_up_to_date is_fail
skills_lem none = (λ h. absurd (cc), λ h. absurd h)
skills_lem (some r) = (λ h. ground arith, λ h. ground arith)

version_lem :
    (s : StatusResult)
    → (is_fail (check_version_compatible (some s)).status ≡ false) ↔ (s.protocol_version ≡ "1.0")
unfolding check_version_compatible is_fail
version_lem s = (λ h. ground arith, λ h. ground arith)

connected_lem :
    (s : StatusResult)
    → (is_fail (check_extension_connected (some s)).status ≡ false) ↔ (0 < s.browsers)
unfolding check_extension_connected is_fail
connected_lem s = (λ h. ground arith, λ h. ground arith)

skew_lem :
    (s : StatusResult)
    → 0 < s.browsers
    → (is_fail (check_browsers_protocol_compatible (some s)).status ≡ false)
      ↔ (s.version_skew_browsers ≡ 0)
unfolding check_browsers_protocol_compatible is_fail
skew_lem s b = (λ h. ground arith, λ h. ground arith)

-- The five checks that can fail beside that of the daemon.
Fine : Bool → Option SyncReport → StatusResult → Type 0
Fine home skills s =
    (is_fail (check_home_writable home).status ≡ false)
    × (is_fail (check_skill_up_to_date skills).status ≡ false)
    × (is_fail (check_version_compatible (some s)).status ≡ false)
    × (is_fail (check_extension_connected (some s)).status ≡ false)
    × (is_fail (check_browsers_protocol_compatible (some s)).status ≡ false)

verified-Fine :
    (home : Bool) (skills : Option SyncReport) (s : StatusResult)
    → (has_failures (collect_checks home skills (verified s)) ≡ false) ↔ Fine home skills s
unfolding has_failures collect_checks Fine
verified-Fine home skills s = (
  λ h.
      let (home_ok, rest1) = or_false _ _ h in
      let (skills_ok, rest2) = or_false _ _ rest1 in
      let (version_ok, rest3) = or_false _ _ rest2 in
      let (connected_ok, rest4) = or_false _ _ rest3 in
      (home_ok, skills_ok, version_ok, connected_ok, (or_false _ false rest4).0),
  λ h. rw h.0 (rw h.1 (rw h.2 (rw h.3 (rw h.4 refl)))),
)

Fine-IsServing :
    (home : Bool) (skills : Option SyncReport) (s : StatusResult)
    → Fine home skills s ↔ ((home ≡ true) × IsSynced skills × IsServing (verified s))
unfolding Fine
Fine-IsServing home skills s = (
  λ h.
      let connected = (connected_lem s).0 h.3 in
      (
        (home_lem home).0 h.0,
        (skills_lem skills).0 h.1,
        ((version_lem s).0 h.2, connected, (skew_lem s connected).0 h.4),
      ),
  λ h. (
    (home_lem home).1 h.0,
    (skills_lem skills).1 h.1,
    (version_lem s).1 h.2.0,
    (connected_lem s).1 h.2.1,
    (skew_lem s h.2.1).1 h.2.2,
  ),
)

-- The doctor reports no failure exactly if the home is writable, the skills could be synced (or none
-- is installed), and the daemon that answers is the one of daemon.json, speaks this protocol, and has
-- at least one browser, none of another protocol version.
pub has_failures-collect_checks :
    (home : Bool) (skills : Option SyncReport) (state : DaemonState)
    → (has_failures (collect_checks home skills state) ≡ false)
      ↔ ((home ≡ true) × IsSynced skills × IsServing state)
unfolding collect_checks has_failures
has_failures-collect_checks home skills (verified s) = (
  λ h. (Fine-IsServing home skills s).0 ((verified-Fine home skills s).0 h),
  λ h. (verified-Fine home skills s).1 ((Fine-IsServing home skills s).1 h),
)
has_failures-collect_checks home skills missing = (λ h. absurd (ground arith), λ h. absurd h.2)
has_failures-collect_checks home skills read_error = (λ h. absurd (ground arith), λ h. absurd h.2)
has_failures-collect_checks home skills (stale_dead p) =
    (λ h. absurd (ground arith), λ h. absurd h.2)
has_failures-collect_checks home skills (ipc_unreachable p) =
    (λ h. absurd (ground arith), λ h. absurd h.2)
has_failures-collect_checks home skills (pid_mismatch p s) =
    (λ h. absurd (ground arith), λ h. absurd h.2)
