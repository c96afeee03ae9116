-- ===== src/Cli/Update/Safe.antt =====
-- When the automatic upgrade changes anything.
use browser_skill.Prelude.{
  ℕ, ◌≡◌, ap, ◌∙◌, ◌⊎◌, inl, inr, refl, ◌≢◌, is_some, Bool, true, false, ◌&&◌, Option, none, some,
  String, arith, ltb, ◌==◌, Option-cases, Bool-cases, if◌then◌else◌,
}
use browser_skill.Map.{lookup}
use browser_skill.Cli.Update.{
  UpdateManifest, UpdateCandidate, InstallAction, Candidate, candidate, auto_update_step,
  update_candidate,
}

-- A tick of the automatic upgrade runs the installer exactly if there is a candidate, upgrades are
-- on and no session is registered; otherwise it changes nothing.
pub auto_update_step-changes :
    {Version W : Type 0} (found : Option (UpdateCandidate Version)) (enabled : Bool) (sessions : ℕ)
    (install : UpdateCandidate Version → W → W × Option InstallAction) (w : W)
    → (auto_update_step found enabled sessions install w).0
      ≡ elim found [ none ↦ w | some c ↦ if enabled && sessions == 0 then (install c w).0 else w ]
unfolding auto_update_step
auto_update_step-changes none enabled sessions install w = refl
auto_update_step-changes (some c) false sessions install w = refl
auto_update_step-changes (some c) true sessions install w = elim (Bool-cases (ltb 0 sessions)) [
  | inl live ↦ ground arith
  | inr idle ↦ ground arith
]

-- A candidate is newer than the program that runs, is for its platform, and is the manifest's.
pub update_candidate_lem :
    {Version : Type 0} (parse : String → Option Version) (le : Version → Version → Bool)
    (show : Version → String) (m : UpdateManifest Version) (now platform : String)
    (c : UpdateCandidate Version)
    → update_candidate parse le show m now platform ≡ candidate c
    → (parse now ≡ some c.current)
      × (c.latest ≡ m.version)
      × (le c.latest c.current ≡ false)
      × (lookup platform m.assets ≡ some c.asset)
unfolding update_candidate
update_candidate_lem parse le show m now platform c e = elim (Option-cases (parse now)) [
  | inl unread ↦ absurd (ground arith)
  | inr (v, read) ↦ elim (Bool-cases (le m.version v)) [
    | inl old ↦ absurd (ground arith)
    | inr newer ↦ elim (Option-cases (lookup platform m.assets)) [
      | inl missing ↦ absurd (ground arith)
      | inr (asset, there) ↦ (ground arith, ground arith, ground arith, ground arith)
    ]
  ]
]

-- What a tick is given of an update check.
abbrev pub found : {Version : Type 0} → Candidate Version → Option (UpdateCandidate Version)
found (candidate c) = some c
found _ = none

candidate-cases :
    {Version : Type 0} (x : Candidate Version)
    → (found x ≡ none) ⊎ ((c : UpdateCandidate Version) × (x ≡ candidate c))
candidate-cases Candidate.up_to_date = inl refl
candidate-cases (candidate c) = inr (c, refl)
candidate-cases Candidate.unreadable_version = inl refl
candidate-cases Candidate.no_asset = inl refl

unchanged :
    {W : Type 0} (enabled : Bool) (sessions : ℕ) (w' w : W)
    → enabled && sessions == 0 ≡ false
    → (if enabled && sessions == 0 then w' else w) ≡ w
unchanged enabled sessions w' w e = rw e refl

-- If the automatic upgrade to what a manifest offers changes anything, then upgrades are on, no
-- session is registered, the manifest's version is newer than the one that runs, and the manifest has
-- an archive for the platform.
pub auto_update_step-newer :
    {Version W : Type 0} (parse : String → Option Version) (le : Version → Version → Bool)
    (show : Version → String) (m : UpdateManifest Version) (now platform : String) (enabled : Bool)
    (sessions : ℕ) (install : UpdateCandidate Version → W → W × Option InstallAction) (w : W)
    → (auto_update_step
        (found (update_candidate parse le show m now platform))
        enabled
        sessions
        install
        w).0
      ≢ w
    → (enabled ≡ true)
      × (sessions ≡ 0)
      × (running : Version) × (parse now ≡ some running)
      × (le m.version running ≡ false)
      × is_some (lookup platform m.assets) ≡ true
auto_update_step-newer parse le show m now platform enabled sessions install w changed =
    elim (candidate-cases (update_candidate parse le show m now platform)) [
      | inl nothing ↦ absurd (
          changed (
            ap (λ x. (auto_update_step x enabled sessions install w).0) nothing
            ∙ auto_update_step-changes none enabled sessions install w))
      | inr (c, offered) ↦
          let (read, latest, newer, asset) =
            update_candidate_lem parse le show m now platform c offered in
          let step =
            ap (λ x. (auto_update_step (found x) enabled sessions install w).0) offered
            ∙ auto_update_step-changes (some c) enabled sessions install w in
          elim (Bool-cases (enabled && sessions == 0)) [
            | inl may ↦
                (ground arith, ground arith, c.current, read, rw latest at newer, ap is_some asset)
            | inr may_not ↦
                absurd (changed (step ∙ unchanged enabled sessions (install c w).0 w may_not))
          ]
    ]
