-- ===== src/Skill/Sync/Kept.antt =====
-- What a pass over the installed skills leaves of the disk, at its end and on the way.
use browser_skill.Prelude.{
  ◌≡◌, ◌≢◌, refl, subst, Bool, true, false, Option, none, some, List, [], ◌∷◌, arith, if◌then◌else◌,
}
use browser_skill.Files.{
  create, write_all, Bytes, FilePath, File, Disk, put_file, Outcome, succeeds, fails, World,
  Contents, contents, rename, read_file,
}
use browser_skill.Files.Traces.{
  Through, Anything, HasContent, then_Keeps, create-Keeps, write_all-Keeps, rename-Keeps,
  remove_file_keeps, read_file_keeps,
}
use browser_skill.Files.Writers.{IsText}
use browser_skill.Cli.Durations.{same}
use browser_skill.Skill.Sync.{
  SyncOne, SyncError, missing, sync_error, read_failed, write_failed, rename_failed, is_file,
  sync_tmp, write_file, cleaned, moved_in, rewritten, compared, sync_one,
}

is_file-exists :
    (dest : FilePath) (w : World) → (is_file dest w).1 ≡ true → (is_file dest w).0.now dest ≢ none
unfolding is_file
is_file-exists dest w = from w.outcomes
  where
    from :
        (os : List Outcome)
        → (is_file dest (record w { outcomes = os })).1 ≡ true
        → (is_file dest (record w { outcomes = os })).0.now dest ≢ none
    from [] e = absurd (cc)
    from (fails cs ∷ os) e = absurd (cc)
    from (succeeds cs ∷ os) e = λ gone. absurd (ground arith)

read_file_stays :
    (dest : FilePath) (w : World) → w.now dest ≢ none → (read_file dest w).0.now dest ≢ none
unfolding read_file
read_file_stays dest w there = from w.outcomes
  where
    found :
        (os : List Outcome) (cs : List Bytes) (o : Option File)
        → w.now dest ≡ o
        → (read_file dest (record w { outcomes = succeeds cs ∷ os })).0.now dest ≢ none
    found os cs none e = absurd (there e)
    found os cs (some f) e = rw e there

    from : (os : List Outcome) → (read_file dest (record w { outcomes = os })).0.now dest ≢ none
    from [] = there
    from (fails cs ∷ os) = there
    from (succeeds cs ∷ os) = found os cs (w.now dest) refl

-- A property that does not look at the temporary file, and allows the installed file, where there is
-- one, to become the bundled one.
module _ (P : Disk → Type 0) (tmp dest : FilePath) (source : Bytes)
    (closed : (f : Option File) (d : Disk) → P d → P (put_file tmp f d)) where
  is_file_keeps : (w : World) → Through P w → Through P (is_file dest w).0
  unfolding is_file
  is_file_keeps w t = from w.outcomes
    where
      from : (os : List Outcome) → Through P (is_file dest (record w { outcomes = os })).0
      from [] = t
      from (fails cs ∷ os) = t
      from (succeeds cs ∷ os) = t

  cleaned_keeps : (e : SyncError) (w : World) → Through P w → Through P (cleaned tmp e w).0
  unfolding cleaned
  cleaned_keeps e w t = remove_file_keeps P tmp closed w t

  module _
      (allowed : (f : File) (d : Disk)
        → P d
        → IsText source (some f)
        → P (put_file dest (some f) d)) where
    moved_in_keeps :
        (w : World) → Through P w → HasContent tmp source w.now → Through P (moved_in tmp dest w).0
    unfolding moved_in
    moved_in_keeps w t text =
        from (rename tmp dest w).0 (rename tmp dest w).1
          (rename-Keeps P tmp closed (IsText source) dest allowed w t text).0
      where
        from :
            (v : World) (r : Option (Unit {0}))
            → Through P v
            → let end : World × SyncOne = elim r [
              | some _ ↦ (v, SyncOne.updated)
              | none ↦ cleaned tmp rename_failed v
            ] in
              Through P end.0
        from v none s = cleaned_keeps rename_failed v s
        from v (some u) s = s

    rewritten_keeps : (w : World) → Through P w → Through P (rewritten tmp dest source w).0
    unfolding rewritten write_file
    rewritten_keeps w t =
        let wrote =
          then_Keeps P Anything Anything (HasContent tmp source) (create tmp) (write_all tmp source)
            (create-Keeps P tmp closed) (write_all-Keeps P tmp closed source) w t tt in
        from (write_file tmp source w).0 (write_file tmp source w).1 wrote.0 wrote.1
      where
        from :
            (v : World) (r : Option (Unit {0}))
            → Through P v
            → (r ≢ none → HasContent tmp source v.now)
            → let end : World × SyncOne = elim r [
              | some _ ↦ moved_in tmp dest v
              | none ↦ cleaned tmp write_failed v
            ] in
              Through P end.0
        from v none s text = cleaned_keeps write_failed v s
        from v (some u) s text = moved_in_keeps v s (text (λ e. cc))

  -- The whole of one harness; an installed file is changed only where there is one.
  module _ (is_utf8 : Bytes → Bool) (pid : Bytes) (named : tmp ≡ sync_tmp pid dest)
      (allowed : (d₀ : Disk)
        → P d₀
        → d₀ dest ≢ none
        → (f : File) (d : Disk) → P d
        → IsText source (some f)
        → P (put_file dest (some f) d)) where
    compared_keeps :
        (v : World) (found : Contents)
        → v.now dest ≢ none
        → Through P v
        → Through P (compared is_utf8 pid dest source v found).0
    unfolding compared
    compared_keeps v Contents.absent there t = t
    compared_keeps v Contents.unreadable there t = t
    compared_keeps v (contents on_disk) there t =
        let rewrite = rewritten_keeps (allowed v.now t.0 there) v t in
        let kept = subst (λ x. Through P (rewritten x dest source v).0) named rewrite in
        from (is_utf8 on_disk) (same on_disk source) kept
      where
        from :
            (utf8 equal : Bool)
            → Through P (rewritten (sync_tmp pid dest) dest source v).0
            → let end : World × SyncOne =
                if utf8
                then (if equal
                    then (v, SyncOne.up_to_date)
                    else rewritten (sync_tmp pid dest) dest source v)
                else (v, sync_error read_failed) in
              Through P end.0
        from false equal kept = t
        from true true kept = t
        from true false kept = kept

    pub sync_one_keeps :
        (w : World) → Through P w → Through P (sync_one is_utf8 pid dest source w).0
    unfolding sync_one
    sync_one_keeps w t = from (is_file dest w).1 refl
      where
        v : World
        v = (is_file dest w).0

        fine : Through P v
        fine = is_file_keeps w t

        from :
            (b : Bool)
            → (is_file dest w).1 ≡ b
            → let end : World × SyncOne =
                if b
                then compared is_utf8 pid dest source (read_file dest v).0 (read_file dest v).1
                else (v, missing) in
              Through P end.0
        from false e = fine
        from true e =
            compared_keeps (read_file dest v).0 (read_file dest v).1
              (read_file_stays dest v (is_file-exists dest w e)) (read_file_keeps P dest v fine)
