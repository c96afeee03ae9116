-- ===== src/Examples/Skills.antt =====
-- Runs of a pass over the installed skills, and of a choice of harnesses.
use browser_skill.Prelude.{
  ◌≡◌, ◌≢◌, ◌⊎◌, ℕ, true, Bool, Option, none, some, List, [], ◌∷◌, All, String, ap, arith, length,
}
use browser_skill.Files.{Bytes, FilePath, Disk, Outcome, succeeds, World}
use browser_skill.Skill.Harness.{codex, all, dest_file}
use browser_skill.Skill.Sync.{sync_with_source}
use browser_skill.Files.Writers.{IsText}
use browser_skill.Skill.Sync.Pass.{tmp_name, sync_with_source-AsBefore}

abbrev no_variable : String → Option String
no_variable name = none

abbrev unchanged : String → String
unchanged text = text

abbrev is_utf8 : Bytes → Bool
is_utf8 c = true

abbrev pid : Bytes
pid = b'7' ∷ []

abbrev old_skill : Disk
old_skill p = some (record { content = b'o' ∷ []; mode = none })

abbrev bundled : Bytes
bundled = b'n' ∷ []

abbrev skill : FilePath
skill = dest_file no_variable unchanged "/opt" codex

-- The first skill is written, and then the system refuses all.
abbrev outcomes : List Outcome
outcomes = succeeds [] ∷ succeeds [] ∷ succeeds [] ∷ succeeds [] ∷ succeeds [] ∷ []

abbrev synced : World
synced =
    (sync_with_source is_utf8 pid (dest_file no_variable unchanged "/opt") bundled all
      (record { now = old_skill; past = []; outcomes = outcomes })).0

abbrev size : Option Bytes → ℕ
size none = 0
size (some n) = length n

not_a_tmp : skill.file_name ≢ some (tmp_name pid)
unfolding dest_file
not_a_tmp p = absurd (omega (arith, ap size p))

sync_with_source-AsBefore_example :
    All
      (λ d'. (d' skill ≡ old_skill skill) ⊎ ((old_skill skill ≢ none) × IsText bundled (d' skill)))
      (synced.now ∷ synced.past)
sync_with_source-AsBefore_example =
    sync_with_source-AsBefore no_variable unchanged "/opt" is_utf8 pid bundled skill old_skill
      outcomes not_a_tmp
