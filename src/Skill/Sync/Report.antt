-- ===== src/Skill/Sync/Report.antt =====
-- What an outcome of the pass says of the installed file.
use browser_skill.Prelude.{
  ◌≡◌, ◌≢◌, refl, subst, Bool, true, false, Option, none, some, List, [], ◌∷◌, All, arith,
  if◌then◌else◌,
}
use browser_skill.Files.{
  create, write_all, Bytes, FilePath, File, Disk, put_file, Outcome, succeeds, fails, World,
  Contents, contents, rename, read_file,
}
use browser_skill.Files.Traces.{
  Anything, HasContent, then_Keeps, create-Keeps, write_all-Keeps, put_file_self,
}
use browser_skill.Cli.Durations.{same}
use browser_skill.Skill.Sync.{
  SyncOne, missing, sync_error, read_failed, write_failed, rename_failed, is_file, sync_tmp,
  write_file, cleaned, moved_in, rewritten, compared, sync_one,
}

-- The file that a rename has moved in.
rename-HasContent :
    (tmp dest : FilePath) (source : Bytes) (w : World)
    → HasContent tmp source w.now
    → (rename tmp dest w).1 ≢ none
    → HasContent dest source (rename tmp dest w).0.now
unfolding rename
rename-HasContent tmp dest source w (f, there, same) = from w.outcomes
  where
    moved : HasContent dest source (put_file dest (some f) (put_file tmp none w.now))
    moved = (f, put_file_self dest (some f) (put_file tmp none w.now), same)

    from :
        (os : List Outcome)
        → (rename tmp dest (record w { outcomes = os })).1 ≢ none
        → HasContent dest source (rename tmp dest (record w { outcomes = os })).0.now
    from [] ne = absurd (ne refl)
    from (fails cs ∷ os) ne = absurd (ne refl)
    from (succeeds cs ∷ os) ne = rw there moved

read_file-contents :
    (dest : FilePath) (w : World) (c : Bytes)
    → (read_file dest w).1 ≡ contents c
    → HasContent dest c (read_file dest w).0.now
unfolding read_file
read_file-contents dest w c = from w.outcomes
  where
    found :
        (os : List Outcome) (cs : List Bytes) (o : Option File)
        → w.now dest ≡ o
        → (read_file dest (record w { outcomes = succeeds cs ∷ os })).1 ≡ contents c
        → HasContent dest c (read_file dest (record w { outcomes = succeeds cs ∷ os })).0.now
    found os cs none e h = absurd (ground arith)
    found os cs (some f) e h = rw e (f, e, ground arith)

    from :
        (os : List Outcome)
        → (read_file dest (record w { outcomes = os })).1 ≡ contents c
        → HasContent dest c (read_file dest (record w { outcomes = os })).0.now
    from [] h = absurd (cc)
    from (fails cs ∷ os) h = absurd (cc)
    from (succeeds cs ∷ os) h = found os cs (w.now dest) refl h

same-eq : (s t : Bytes) → same s t ≡ true → s ≡ t
unfolding same
same-eq [] [] e = refl
same-eq [] (d ∷ ds) e = absurd (cc)
same-eq (c ∷ cs) [] e = absurd (cc)
same-eq (c ∷ cs) (d ∷ ds) e = ground (arith, same-eq cs ds)

-- What a harness's entry in the report says.
abbrev pub Reported : FilePath → Bytes → World × SyncOne → Type 0
Reported dest source (w, SyncOne.updated) = HasContent dest source w.now
Reported dest source (w, SyncOne.up_to_date) = HasContent dest source w.now
Reported dest source (w, missing) = Unit
Reported dest source (w, sync_error e) = Unit

moved_in-Reported :
    (tmp dest : FilePath) (source : Bytes) (w : World)
    → HasContent tmp source w.now
    → Reported dest source (moved_in tmp dest w)
unfolding moved_in cleaned
moved_in-Reported tmp dest source w text =
    from (rename tmp dest w).0 (rename tmp dest w).1 (rename-HasContent tmp dest source w text)
  where
    from :
        (v : World) (r : Option (Unit {0}))
        → (r ≢ none → HasContent dest source v.now)
        → let end : World × SyncOne = elim r [
          | some _ ↦ (v, SyncOne.updated)
          | none ↦ cleaned tmp rename_failed v
        ] in
          Reported dest source end
    from v none done = tt
    from v (some u) done = done (λ e. cc)

rewritten-Reported :
    (tmp dest : FilePath) (source : Bytes) (w : World)
    → Reported dest source (rewritten tmp dest source w)
unfolding rewritten write_file cleaned
rewritten-Reported tmp dest source w =
    let everything : (d : Disk) → Type 0 = λ d. Unit in
    let trivial : (ds : List Disk) → All everything ds = all_tt in
    let wrote =
      then_Keeps everything Anything Anything (HasContent tmp source) (create tmp)
        (write_all tmp source) (create-Keeps everything tmp (λ f d h. tt))
        (write_all-Keeps everything tmp (λ f d h. tt) source) w (tt, trivial w.past) tt in
    from (write_file tmp source w).0 (write_file tmp source w).1 wrote.1
  where
    all_tt : (ds : List Disk) → All (λ d. Unit {0}) ds
    all_tt [] = tt
    all_tt (d ∷ ds) = (tt, all_tt ds)

    from :
        (v : World) (r : Option (Unit {0}))
        → (r ≢ none → HasContent tmp source v.now)
        → let end : World × SyncOne = elim r [
          | some _ ↦ moved_in tmp dest v
          | none ↦ cleaned tmp write_failed v
        ] in
          Reported dest source end
    from v none text = tt
    from v (some u) text = moved_in-Reported tmp dest source v (text (λ e. cc))

compared-Reported :
    (is_utf8 : Bytes → Bool) (pid : Bytes) (dest : FilePath) (source : Bytes) (v : World)
    (found : Contents)
    → ((c : Bytes) → found ≡ contents c → HasContent dest c v.now)
    → Reported dest source (compared is_utf8 pid dest source v found)
unfolding compared
compared-Reported is_utf8 pid dest source v Contents.absent read = tt
compared-Reported is_utf8 pid dest source v Contents.unreadable read = tt
compared-Reported is_utf8 pid dest source v (contents on_disk) read =
    from (is_utf8 on_disk) (same on_disk source) refl
  where
    from :
        (utf8 equal : Bool)
        → same on_disk source ≡ equal
        → let end : World × SyncOne =
            if utf8
            then (if equal
                then (v, SyncOne.up_to_date)
                else rewritten (sync_tmp pid dest) dest source v)
            else (v, sync_error read_failed) in
          Reported dest source end
    from false equal e = tt
    from true true e =
        subst (λ c. HasContent dest c v.now) (same-eq on_disk source e) (read on_disk refl)
    from true false e = rewritten-Reported (sync_tmp pid dest) dest source v

pub sync_one-Reported :
    (is_utf8 : Bytes → Bool) (pid : Bytes) (dest : FilePath) (source : Bytes) (w : World)
    → Reported dest source (sync_one is_utf8 pid dest source w)
unfolding sync_one
sync_one-Reported is_utf8 pid dest source w = from (is_file dest w).1
  where
    v : World
    v = (read_file dest (is_file dest w).0).0

    from :
        (b : Bool)
        → let end : World × SyncOne =
            if b
            then compared is_utf8 pid dest source v (read_file dest (is_file dest w).0).1
            else ((is_file dest w).0, missing) in
          Reported dest source end
    from false = tt
    from true =
        compared-Reported is_utf8 pid dest source v (read_file dest (is_file dest w).0).1
          (read_file-contents dest (is_file dest w).0)
