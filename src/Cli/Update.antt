-- ===== src/Cli/Update.antt =====
-- When the daemon upgrades bsk by itself, and what the commands hint at:
-- crates/bsk-cli/src/cli/update.rs. Versions are those of the semver crate: a parameter, with their
-- order and their parser.
pub mod Safe
pub mod Install
pub mod Replaced
pub mod Tick
pub mod Verified
pub mod Upgrade
pub mod Command
use Prim.Native.String.{◌++◌ as str_append}
use browser_skill.Prelude.{
  ℕ, zero, suc, ◌-◌, Bool, true, false, not, Option, none, some, String, leb, ltb, if◌then◌else◌,
}
use browser_skill.Map.{Map, lookup}

pub record UpdateCheckCache : Type 0 where
  pub checked_at_epoch_secs : ℕ
  pub latest_version : String

unfoldable pub is_fresh : UpdateCheckCache → ℕ → ℕ → Bool
is_fresh cache now interval = leb (now - cache.checked_at_epoch_secs) interval

unfoldable pub cache_needs_refresh : Option UpdateCheckCache → ℕ → ℕ → Bool
unfolding is_fresh
cache_needs_refresh none now interval = true
cache_needs_refresh (some cache) now interval = not (is_fresh cache now interval)

pub record ManifestAsset : Type 0 where
  pub url : String
  pub sha256 : Option String

pub data InstallAction : Type 0 where
  action_replaced action_staged : InstallAction

pub record UpdateManifest (Version : Type 0) : Type 0 where
  pub version : Version
  pub tag : String
  pub release_url : Option String
  pub assets : Map ManifestAsset

pub record UpdateCandidate (Version : Type 0) : Type 0 where
  pub current : Version
  pub latest : Version
  pub tag : String
  pub release_url : Option String
  pub asset : ManifestAsset

pub data Candidate (Version : Type 0) : Type 0 where
  up_to_date : Candidate Version
  candidate : UpdateCandidate Version → Candidate Version
  unreadable_version no_asset : Candidate Version

pub data AutoUpdateOutcome (Version : Type 0) : Type 0 where
  current install_failed : AutoUpdateOutcome Version
  disabled replaced staged : Version → AutoUpdateOutcome Version
  postponed_sessions : Version → ℕ → AutoUpdateOutcome Version

-- `parse` reads a version without its leading `v`s, `le` is the order of versions and `show` their
-- text.
module _ {Version : Type 0} (parse : String → Option Version) (le : Version → Version → Bool)
    (show : Version → String) where
  unfoldable pub update_candidate : UpdateManifest Version → String → String → Candidate Version
  update_candidate m current_version platform_key = elim (parse current_version) [
    | none ↦ unreadable_version
    | some v ↦ if le m.version v then up_to_date else elim (lookup platform_key m.assets) [
      | none ↦ no_asset
      | some asset ↦ candidate (record {
        current = v;
        latest = m.version;
        tag = m.tag;
        release_url = m.release_url;
        asset = asset;
      })
    ]
  ]

  unfoldable pub update_hint_text : Version → Version → Bool → String
  update_hint_text v latest auto_update = str_append "A new bsk version is available: " (
      str_append (show v) (
        str_append " -> " (
          str_append (show latest) (
            if auto_update
            then ". The daemon will upgrade bsk automatically."
            else ". Run `bsk update`."))))

  unfoldable pub update_hint_for_cache : UpdateCheckCache → String → Bool → Option String
  unfolding update_hint_text
  update_hint_for_cache cache current_version auto_update = elim (parse current_version) [
    | none ↦ none
    | some v ↦ elim (parse cache.latest_version) [
      | none ↦ none
      | some latest ↦ if le latest v then none else some (update_hint_text v latest auto_update)
    ]
  ]

-- One tick of the automatic upgrade; the installer acts on what it changes, and may fail.
unfoldable pub auto_update_step :
    {Version W : Type 0}
    → Option (UpdateCandidate Version)
    → Bool
    → ℕ
    → (UpdateCandidate Version → W → W × Option InstallAction)
    → W
    → W × AutoUpdateOutcome Version
auto_update_step none enabled sessions install w = (w, current)
auto_update_step (some c) enabled sessions install w =
    if not enabled
    then (w, disabled c.latest)
    else (if ltb 0 sessions
        then (w, postponed_sessions c.latest sessions)
        else (let (w', result) = install c w in
            elim result [
              | none ↦ (w', install_failed)
              | some action_replaced ↦ (w', replaced c.latest)
              | some action_staged ↦ (w', staged c.latest)
            ]))
