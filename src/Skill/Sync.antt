-- ===== src/Skill/Sync.antt =====
-- Keeping installed skills in step with the bundled one: crates/bsk-cli/src/skill_install/sync.rs.
pub mod Kept
pub mod Report
pub mod Pass
use browser_skill.Prelude.{
  Bool, true, false, ◌&&◌, Option, none, some, List, [], ◌∷◌, ◌++◌, codes, is_some, if◌then◌else◌,
}
use browser_skill.Files.{
  Bytes, FilePath, with_file_name, ◌>>◌, Io, World, draw, succeeds, fails, Contents, contents,
  create, write_all, rename, remove_file, read_file,
}
use browser_skill.Cli.Durations.{same}
use browser_skill.Skill.Harness.{HarnessId}

pub data SyncError : Type 0 where
  read_failed write_failed rename_failed : SyncError

pub data SyncOne : Type 0 where
  missing up_to_date updated : SyncOne
  sync_error : SyncError → SyncOne

pub record SyncReport : Type 0 where
  pub updated : List HarnessId
  pub up_to_date : List HarnessId
  pub errors : List (HarnessId × SyncError)

-- `Path::is_file`, which is false where the system cannot tell.
unfoldable pub is_file : FilePath → World → World × Bool
is_file p w =
    let (w', o) = draw w in elim o [ fails _ ↦ (w', false) | succeeds _ ↦ (w', is_some (w'.now p)) ]

-- `dest.with_extension("md.tmp.<pid>")` for a file `SKILL.md`.
unfoldable pub sync_tmp : Bytes → FilePath → FilePath
sync_tmp pid dest = with_file_name dest (codes "SKILL" ++ (codes ".md.tmp." ++ pid))

-- `std::fs::write`
unfoldable pub write_file : FilePath → Bytes → Io (Unit {0})
write_file p c = create p >> write_all p c

-- The temporary file is removed, if that can be, after a failure.
cleaned : FilePath → SyncError → World → World × SyncOne
cleaned tmp e w = ((remove_file tmp w).0, sync_error e)

moved_in : FilePath → FilePath → World → World × SyncOne
unfolding cleaned
moved_in tmp dest w =
    let (w', r) = rename tmp dest w in
    elim r [ some _ ↦ (w', SyncOne.updated) | none ↦ cleaned tmp rename_failed w' ]

rewritten : FilePath → FilePath → Bytes → World → World × SyncOne
unfolding moved_in cleaned write_file
rewritten tmp dest source w =
    let (w', r) = write_file tmp source w in
    elim r [ some _ ↦ moved_in tmp dest w' | none ↦ cleaned tmp write_failed w' ]

-- `is_utf8` is what `read_to_string` accepts.
module _ (is_utf8 : Bytes → Bool) (pid : Bytes) where
  compared : FilePath → Bytes → World → Contents → World × SyncOne
  unfolding rewritten sync_tmp same
  compared dest source w Contents.absent = (w, sync_error read_failed)
  compared dest source w Contents.unreadable = (w, sync_error read_failed)
  compared dest source w (contents on_disk) =
      if is_utf8 on_disk
      then (if same on_disk source
          then (w, SyncOne.up_to_date)
          else rewritten (sync_tmp pid dest) dest source w)
      else (w, sync_error read_failed)

  unfoldable pub sync_one : FilePath → Bytes → World → World × SyncOne
  unfolding compared is_file read_file
  sync_one dest source w =
      let (w', there) = is_file dest w in
      if there
      then (let (v, found) = read_file dest w' in compared dest source v found)
      else (w', missing)

  push : HarnessId → SyncOne → SyncReport → SyncReport
  push h missing r = r
  push h SyncOne.up_to_date r = record r { up_to_date = r.up_to_date ++ (h ∷ []) }
  push h SyncOne.updated r = record r { updated = r.updated ++ (h ∷ []) }
  push h (sync_error e) r = record r { errors = r.errors ++ ((h, e) ∷ []) }

  -- The loop over the harnesses.
  sync_each :
      (HarnessId → FilePath) → Bytes → List HarnessId → SyncReport → World → World × SyncReport
  unfolding sync_one push
  sync_each dest source [] r w = (w, r)
  sync_each dest source (h ∷ hs) r w =
      let (w', one) = sync_one (dest h) source w in sync_each dest source hs (push h one r) w'

  unfoldable pub sync_with_source :
      (HarnessId → FilePath) → Bytes → List HarnessId → World → World × SyncReport
  unfolding sync_each
  sync_with_source dest source hs w =
      sync_each dest source hs (record { updated = []; up_to_date = []; errors = [] }) w
