-- ===== src/Cli/Update/Verified.antt =====
-- What makes an upgrade one that may be installed, and the parts of the refresh that finds it.
use browser_skill.Prelude.{
  ℕ, ◌≡◌, inl, inr, ◌∙◌, Bool, true, false, Option, some, String, arith, Option-cases, Bool-cases,
}
use browser_skill.Map.{lookup}
use browser_skill.Files.{Bytes, File, Io, ◌>>=◌, ◌>>◌, of_option, pure, World}
use browser_skill.Files.Traces.{>>=-eq-some}
use browser_skill.Cli.Update.{
  UpdateManifest, UpdateCandidate, ManifestAsset, Candidate, update_candidate,
}
use browser_skill.Cli.Update.Install.{
  ArchiveKind, verify_sha256, from_url, extract_bsk_binary, download_candidate_binary, checked,
}
use browser_skill.Cli.Update.Tick.{
  Sources, Process, write_update_cache, offered, refresh_update_cache,
}

-- What was downloaded, checked and unpacked.
pub record IsVerified {Version : Type 0} (s : Sources Version) (asset : ManifestAsset)
    (binary : Bytes) : Type 0 where
  pub expected : String
  pub archive : Bytes
  pub kind : ArchiveKind
  pub listed : asset.sha256 ≡ some expected
  pub fetched : s.fetch_bytes asset.url ≡ some archive
  pub verified : verify_sha256 s.digest archive expected ≡ true
  pub known : from_url asset.url ≡ some kind
  pub extracted : extract_bsk_binary s.entries kind archive ≡ some binary

pub download-IsVerified :
    {Version : Type 0} (s : Sources Version) (c : UpdateCandidate Version) (binary : Bytes)
    → download_candidate_binary s.fetch_bytes s.digest s.entries c ≡ some binary
    → IsVerified s c.asset binary
unfolding download_candidate_binary checked
download-IsVerified s c binary e = elim (Option-cases c.asset.sha256) [
  | inl unlisted ↦ absurd (ground arith)
  | inr (expected, listed) ↦ elim (Option-cases (s.fetch_bytes c.asset.url)) [
    | inl gone ↦ absurd (ground arith)
    | inr (archive, fetched) ↦ elim (Bool-cases (verify_sha256 s.digest archive expected)) [
      | inr bad ↦ absurd (ground arith)
      | inl good ↦ elim (Option-cases (from_url c.asset.url)) [
        | inl unknown ↦ absurd (ground arith)
        | inr (kind, known) ↦ record {
          expected = expected;
          archive = archive;
          kind = kind;
          listed = listed;
          fetched = fetched;
          verified = good;
          known = known;
          extracted = ground arith;
        }
      ]
    ]
  ]
]

-- An upgrade that the tick may install.
pub record IsUpgrade {Version : Type 0} (s : Sources Version) (p : Process) (enabled : Bool)
    (sessions : ℕ) (f : Option File) : Type 0 where
  pub switched_on : enabled ≡ true
  pub idle : sessions ≡ 0
  pub manifest : UpdateManifest Version
  pub running : Version
  pub asset : ManifestAsset
  pub binary : Bytes
  pub served : s.manifest ≡ some manifest
  pub parsed : s.parse p.version ≡ some running
  pub newer : s.le manifest.version running ≡ false
  pub built : lookup p.platform manifest.assets ≡ some asset
  pub verified : IsVerified s asset binary
  pub whole : f ≡ some (record { content = binary; mode = some 0o755 })

pub offered-candidate :
    {Version : Type 0} (s : Sources Version) (p : Process) (x : Candidate Version)
    (c : UpdateCandidate Version)
    → offered s p x ≡ some (some c)
    → x ≡ Candidate.candidate c
unfolding offered
offered-candidate s p (Candidate.candidate b) c e = cc
offered-candidate s p Candidate.up_to_date c e = absurd (cc)
offered-candidate s p Candidate.unreadable_version c e = absurd (cc)
offered-candidate s p Candidate.no_asset c e = absurd (cc)

-- The parts of `refresh_update_cache`.
module _ {Version : Type 0} (s : Sources Version) where
  abbrev pub cache_text : UpdateManifest Version → ℕ → Bytes
  cache_text m now =
      s.show_cache (record { checked_at_epoch_secs = now; latest_version = s.show m.version })

  module _ (p : Process) where
    abbrev pub offer : UpdateManifest Version → Option (Option (UpdateCandidate Version))
    offer m = offered s p (update_candidate s.parse s.le s.show m p.version p.platform)

    module _ (now : ℕ) where
      abbrev pub write : UpdateManifest Version → Io (Unit {0})
      write m = write_update_cache p.pid p.cache_path (cache_text m now)

      abbrev pub write_and_answer :
          UpdateManifest Version
          → Option (UpdateCandidate Version)
          → Io (Option (UpdateCandidate Version))
      write_and_answer m c = write m >> pure c

      abbrev pub answer : UpdateManifest Version → Io (Option (UpdateCandidate Version))
      answer m = of_option (offer m) >>= write_and_answer m

      pub refresh-offered :
          (w : World) (c : Option (UpdateCandidate Version))
          → (refresh_update_cache s p now w).1 ≡ some c
          → (m : UpdateManifest Version) × (s.manifest ≡ some m) × (offer m ≡ some c)
      unfolding refresh_update_cache
      refresh-offered w c e =
          let (m, served, rest) = >>=-eq-some (of_option s.manifest) answer w c e in
          let (c', offer, wrote) =
            >>=-eq-some (of_option (offer m)) (write_and_answer m) w c rest in
          let (u, done, same) = >>=-eq-some (write m) (λ _. pure c') w c wrote in
          (m, served, offer ∙ same)
