-- ===== src/Files/Atomic.antt =====
-- A file that is replaced by a rename: at every moment it is either the old one or the new one.
use browser_skill.Prelude.{
  ◌≡◌, ◌≢◌, ◌⊎◌, inl, inr, refl, ◌∙◌, Option, none, some, List, [], ◌∷◌, All,
}
use browser_skill.Files.{
  Bytes, FilePath, FilePath_discrete, File, Disk, put_file, Outcome, succeeds, fails, World, Io,
  ◌>>◌, pure, best_effort, syscall, rename,
}
use browser_skill.Files.Traces.{Through, Keeps, put_file_self, put_file_other}

-- Everything but the temporary file is as before.
abbrev pub Untouched : FilePath → Disk → Disk → Type 0
Untouched tmp before d = (p : FilePath) → p ≢ tmp → d p ≡ before p

pub Untouched-put_file :
    (tmp : FilePath) (before : Disk) (f : Option File) (d : Disk)
    → Untouched tmp before d
    → Untouched tmp before (put_file tmp f d)
Untouched-put_file tmp before f d h = λ p ne. put_file_other tmp p f d ne ∙ h p ne

module _ (IsNew : Option File → Type 0) (tmp target : FilePath) where
  -- Every file but the temporary one is as before, or it is the target and new.
  abbrev pub OldOrNew : Disk → Disk → Type 0
  OldOrNew before d = (p : FilePath) → p ≢ tmp → (d p ≡ before p) ⊎ ((p ≡ target) × IsNew (d p))

  -- The new file after a success, the old one after a failure.
  abbrev pub Ends : {A : Type 0} → Disk → World × Option A → Type 0
  Ends before (w, none) = Untouched tmp before w.now
  Ends before (w, some a) = IsNew (w.now target)

  -- The old or the new file at every moment, and the right one at the end.
  pub record IsAtomic {A : Type 0} (before : Disk) (r : World × Option A) : Type 0 where
    pub moments : All (OldOrNew before) (r.0.now ∷ r.0.past)
    pub ends : Ends before r

  old_moments :
      (before : Disk) (ds : List Disk) → All (Untouched tmp before) ds → All (OldOrNew before) ds
  old_moments before [] h = tt
  old_moments before (d ∷ ds) h = (λ p ne. inl (h.0 p ne), old_moments before ds h.1)

  pub Untouched-IsAtomic :
      {A : Type 0} (before : Disk) (v : World)
      → Through (Untouched tmp before) v
      → IsAtomic {A = A} before (v, none)
  Untouched-IsAtomic before v t = record {
    moments = old_moments before (v.now ∷ v.past) t;
    ends = t.0;
  }

  moved : File → Disk → Disk
  moved f d = put_file target (some f) (put_file tmp none d)

  moved-OldOrNew :
      (before : Disk) (f : File) (d : Disk)
      → Untouched tmp before d
      → IsNew (some f)
      → OldOrNew before (moved f d)
  unfolding moved
  moved-OldOrNew before f d old new p ne = elim (FilePath_discrete p target) [
    | yes at ↦ inr (at, rw (at, put_file_self target (some f) (put_file tmp none d)) new)
    | no away ↦ inl (
        put_file_other target p (some f) (put_file tmp none d) away
        ∙ put_file_other tmp p none d ne
        ∙ old p ne)
  ]

  moved-IsNew : (f : File) (d : Disk) → IsNew (some f) → IsNew (moved f d target)
  unfolding moved
  moved-IsNew f d new = rw (put_file_self target (some f) (put_file tmp none d)) new

  -- A rename of a whole new file.
  pub rename-IsAtomic :
      (before : Disk) (v : World)
      → Through (Untouched tmp before) v
      → IsNew (v.now tmp)
      → IsAtomic before (rename tmp target v)
  unfolding rename moved
  rename-IsAtomic before v t new = from v.outcomes
    where
      found :
          (os : List Outcome) (cs : List Bytes) (o : Option File)
          → v.now tmp ≡ o
          → IsAtomic before (rename tmp target (record v { outcomes = succeeds cs ∷ os }))
      found os cs none e = rw e (Untouched-IsAtomic before (record v { outcomes = os }) t)
      found os cs (some f) e = rw e (record {
        moments = (
          moved-OldOrNew before f v.now t.0 (rw e at new),
          old_moments before (v.now ∷ v.past) t,
        );
        ends = moved-IsNew f v.now (rw e at new);
      })

      from : (os : List Outcome) → IsAtomic before (rename tmp target (record v { outcomes = os }))
      from [] = Untouched-IsAtomic before (record v { outcomes = [] }) t
      from (fails cs ∷ os) = Untouched-IsAtomic before (record v { outcomes = os }) t
      from (succeeds cs ∷ os) = found os cs (v.now tmp) refl

  -- A step that leaves all but the temporary file alone, before the rename.
  pub then-IsAtomic :
      {A : Type 0} (before : Disk) (Q R : Disk → Type 0) (m : Io (Unit {0})) (k : Io A)
      → Keeps (Untouched tmp before) Q R m
      → ((v : World) → Through (Untouched tmp before) v → R v.now → IsAtomic before (k v))
      → (w : World) → Through (Untouched tmp before) w
      → Q w.now
      → IsAtomic before ((m >> k) w)
  then-IsAtomic {A} before Q R m k keeps next w t q =
      from (m w).0 (m w).1 (keeps w t q).0 (keeps w t q).1
    where
      from :
          (v : World) (r : Option (Unit {0}))
          → Through (Untouched tmp before) v
          → (r ≢ none → R v.now)
          → let end : World × Option A = elim r [ none ↦ (v, none) | some a ↦ k v ] in
            IsAtomic before end
      from v none s after = Untouched-IsAtomic before v s
      from v (some a) s after = next v s (after (λ e. cc))

  -- The directory is synced at the end, whatever comes of it.
  synced-IsAtomic :
      {A : Type 0} (m : Io (Unit {0})) (a : A) (before : Disk) (w : World)
      → IsAtomic before (m w)
      → IsAtomic before ((m >> (best_effort syscall >> pure a)) w)
  unfolding syscall
  synced-IsAtomic {A} m a before w = from (m w).0 (m w).1
    where
      from :
          (v : World) (r : Option (Unit {0}))
          → IsAtomic before (v, r)
          → let end : World × Option A = elim r [
            | none ↦ (v, none)
            | some _ ↦ (best_effort syscall >> pure a) v
          ] in
            IsAtomic before end
      from v none s = record { moments = s.moments; ends = s.ends }
      from v (some u) s = at v.outcomes
        where
          end : (os : List Outcome) → IsAtomic before (record v { outcomes = os }, some a)
          end os = record { moments = s.moments; ends = s.ends }

          at :
              (os : List Outcome)
              → IsAtomic before ((best_effort syscall >> pure a) (record v { outcomes = os }))
          at [] = end []
          at (succeeds cs ∷ os) = end os
          at (fails cs ∷ os) = end os

  -- The rename and the sync of the directory, as three of the writers end.
  pub rename_synced-IsAtomic :
      {A : Type 0} (a : A) (before : Disk) (v : World)
      → Through (Untouched tmp before) v
      → IsNew (v.now tmp)
      → IsAtomic before ((rename tmp target >> (best_effort syscall >> pure a)) v)
  rename_synced-IsAtomic a before v t new =
      synced-IsAtomic (rename tmp target) a before v (rename-IsAtomic before v t new)
