-- ===== src/Cli/Update/Install.antt =====
-- The download, the check and the installation of an upgrade, and the cache of update checks:
-- crates/bsk-cli/src/cli/update.rs, on Unix. What other crates do is a parameter: the download of an
-- archive, the SHA-256 digest, and the entries of tar.gz and zip archives.
use browser_skill.Prelude.{
  ℕ, ◌+◌, ◌-◌, ◌/◌, ◌%◌, Bool, true, false, ◌&&◌, ◌||◌, Option, none, some, List, [], ◌∷◌, ◌++◌,
  String, codes, map, ltb, leb, is_some, ite, text_discrete, if◌then◌else◌,
}
use browser_skill.Files.{
  Bytes, FilePath, with_file_name, Io, ◌>>=◌, ◌>>◌, pure, of_option, best_effort, syscall,
  write_synced, set_permissions, rename,
}
use browser_skill.Cli.Targets.{trim}
use browser_skill.Cli.Durations.{same, strip_suffix}
use browser_skill.Cli.Update.{UpdateCandidate, ManifestAsset, InstallAction, action_replaced}

hex_digit : ℕ → ℕ
hex_digit n = if ltb n 10 then b'0' + n else b'a' + (n - 10)

unfoldable pub to_ascii_lowercase : ℕ → ℕ
to_ascii_lowercase c = if leb b'A' c && leb c b'Z' then c + 32 else c

-- `{byte:02x}` for each byte.
hex : Bytes → Bytes
unfolding hex_digit
hex [] = []
hex (b ∷ bs) = hex_digit (b / 16) ∷ hex_digit (b % 16) ∷ hex bs

unfoldable pub expected_of : String → Bytes
unfolding to_ascii_lowercase
expected_of text = map to_ascii_lowercase (trim (codes text))

pub data ArchiveKind : Type 0 where
  tar_gz zip : ArchiveKind

ends_with : String → String → Bool
ends_with text suffix = is_some (strip_suffix (codes suffix) (codes text))

unfoldable pub from_url : String → Option ArchiveKind
unfolding ends_with strip_suffix
from_url url =
    if ends_with url ".tar.gz" || ends_with url ".tgz"
    then some tar_gz
    else (if ends_with url ".zip" then some zip else none)

-- An entry of an archive: its name where that can be read, and its content where that can.
pub record ArchiveEntry : Type 0 where
  pub file_name : Option String
  pub content : Option Bytes

is_text : String → String → Bool
is_text s t = ite (text_discrete s t) true false

named : (String → Bool) → Option String → Bool
named wanted none = false
named wanted (some name) = wanted name

-- The loop over the entries, each of which may be unreadable.
first_entry : (String → Bool) → List (Option ArchiveEntry) → Option Bytes
unfolding named
first_entry wanted [] = none
first_entry wanted (none ∷ es) = none
first_entry wanted (some e ∷ es) =
    let rest = first_entry wanted es in if named wanted e.file_name then e.content else rest

module _ (entries : ArchiveKind → Bytes → Option (List (Option ArchiveEntry))) where
  extract_bsk_from_tar_gz : Bytes → Option Bytes
  unfolding first_entry is_text
  extract_bsk_from_tar_gz archive = elim (entries tar_gz archive) [
    | none ↦ none
    | some es ↦ first_entry (is_text "bsk") es
  ]

  extract_bsk_from_zip : Bytes → Option Bytes
  unfolding first_entry is_text
  extract_bsk_from_zip archive = elim (entries zip archive) [
    | none ↦ none
    | some es ↦ first_entry (λ name. is_text "bsk.exe" name || is_text "bsk" name) es
  ]

  unfoldable pub extract_bsk_binary : ArchiveKind → Bytes → Option Bytes
  unfolding extract_bsk_from_tar_gz extract_bsk_from_zip
  extract_bsk_binary tar_gz archive = extract_bsk_from_tar_gz archive
  extract_bsk_binary zip archive = extract_bsk_from_zip archive

module _ (digest : Bytes → Bytes) where
  unfoldable pub hex_sha256 : Bytes → Bytes
  unfolding hex
  hex_sha256 bytes = hex (digest bytes)

  unfoldable pub verify_sha256 : Bytes → String → Bool
  unfolding hex_sha256 expected_of same
  verify_sha256 bytes expected = same (hex_sha256 bytes) (expected_of expected)

module _ (fetch_bytes : String → Option Bytes) (digest : Bytes → Bytes)
    (entries : ArchiveKind → Bytes → Option (List (Option ArchiveEntry))) where
  -- The archive, checked and then unpacked.
  unfoldable pub checked : ManifestAsset → String → Bytes → Option Bytes
  unfolding verify_sha256 from_url extract_bsk_binary
  checked asset expected archive =
      if verify_sha256 digest archive expected
      then elim (from_url asset.url) [
        | none ↦ none
        | some kind ↦ extract_bsk_binary entries kind archive
      ]
      else none

  unfoldable pub download_candidate_binary :
      {Version : Type 0} → UpdateCandidate Version → Option Bytes
  unfolding checked
  download_candidate_binary c = elim c.asset.sha256 [
    | none ↦ none
    | some expected ↦ elim (fetch_bytes c.asset.url) [
      | none ↦ none
      | some archive ↦ checked c.asset expected archive
    ]
  ]

-- The name of the temporary file beside the target, for the text of a process id.
unfoldable pub update_tmp : Bytes → FilePath → Bytes → FilePath
update_tmp pid target name =
    with_file_name target (codes "." ++ (name ++ (codes ".update-" ++ (pid ++ codes ".tmp"))))

unfoldable pub replace_binary_atomically : Bytes → FilePath → Bytes → Io InstallAction
unfolding update_tmp
replace_binary_atomically pid target binary = do
  dir ← of_option target.parent
  syscall
  name ← of_option target.file_name
  let tmp = update_tmp pid target name
  write_synced tmp binary
  set_permissions tmp 0o755
  rename tmp target
  best_effort syscall
  pure action_replaced
