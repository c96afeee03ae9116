-- ===== src/Files/Traces.antt =====
-- What the calls leave of the disk, at its end and on the way.
use browser_skill.Prelude.{ℕ, ◌≡◌, ◌≢◌, refl, Option, none, some, List, [], ◌∷◌, arith, All}
use browser_skill.Files.{
  Bytes, FilePath, File, Disk, put_file, Outcome, succeeds, fails, World, Io, ◌>>=◌, ◌>>◌,
  best_effort, read_file, becomes, holds, passes_through, syscall, create, write_all,
  set_permissions, rename, remove_file, write_synced,
}

-- A property of the disk now, and of every state before.
abbrev pub Through : (Disk → Type 0) → World → Type 0
Through P w = P w.now × All P w.past

-- From states with `Q`, the calls of `m` go through states with `P` only, and end with `R` where they
-- succeed.
abbrev pub Keeps : (Disk → Type 0) → (Disk → Type 0) → (Disk → Type 0) → Io (Unit {0}) → Type 0
Keeps P Q R m =
    (w : World) → Through P w → Q w.now → Through P (m w).0 × ((m w).1 ≢ none → R (m w).0.now)

abbrev pub Anything : Disk → Type 0
Anything d = Unit

abbrev pub HasContent : FilePath → Bytes → Disk → Type 0
HasContent p c d = (f : File) × (d p ≡ some f) × (f.content ≡ c)

pub put_file_self : (p : FilePath) (f : Option File) (d : Disk) → put_file p f d p ≡ f
put_file_self p f d = ground arith

pub put_file_other : (p q : FilePath) (f : Option File) (d : Disk) → q ≢ p → put_file p f d q ≡ d q
put_file_other p q f d ne = ground arith

module _ (P : Disk → Type 0) where
  pub then_Keeps :
      (Q R S : Disk → Type 0) (m k : Io (Unit {0}))
      → Keeps P Q R m
      → Keeps P R S k
      → Keeps P Q S (m >> k)
  then_Keeps Q R S m k hm hk w t q = from (m w).0 (m w).1 (hm w t q).0 (hm w t q).1
    where
      from :
          (v : World) (r : Option (Unit {0}))
          → Through P v
          → (r ≢ none → R v.now)
          → let end : World × Option (Unit {0}) = elim r [ none ↦ (v, none) | some a ↦ k v ] in
            Through P end.0 × (end.1 ≢ none → S end.0.now)
      from v none s after = (s, λ ne. absurd (ne refl))
      from v (some a) s after = hk v s (after (λ e. cc))

  pub syscall-Keeps : (Q : Disk → Type 0) → Keeps P Q Q syscall
  unfolding syscall
  syscall-Keeps Q w t q = from w.outcomes
    where
      from :
          (os : List Outcome)
          → let end = syscall (record w { outcomes = os }) in
            Through P end.0 × (end.1 ≢ none → Q end.0.now)
      from [] = (t, λ ne. q)
      from (succeeds cs ∷ os) = (t, λ ne. q)
      from (fails cs ∷ os) = (t, λ ne. q)

  -- `P` does not look at one file.
  module _ (tmp : FilePath)
      (closed : (f : Option File) (d : Disk) → P d → P (put_file tmp f d)) where
    holds_closed : (c : Bytes) (d : Disk) → P d → P (holds tmp c d)
    unfolding holds
    holds_closed c d h = closed _ d h

    passes_through_keeps :
        (cs : List Bytes) (w : World) → Through P w → Through P (passes_through tmp cs w)
    unfolding passes_through
    passes_through_keeps [] w t = t
    passes_through_keeps (c ∷ cs) w t =
        passes_through_keeps cs (becomes (holds tmp c w.now) w) (holds_closed c w.now t.0, t)

    pub create-Keeps : Keeps P Anything Anything (create tmp)
    unfolding create
    create-Keeps w t q = from w.outcomes
      where
        from :
            (os : List Outcome)
            → let end = create tmp (record w { outcomes = os }) in
              Through P end.0 × (end.1 ≢ none → Unit {0})
        from [] = (t, λ ne. tt)
        from (succeeds cs ∷ os) = ((holds_closed [] w.now t.0, t), λ ne. tt)
        from (fails cs ∷ os) = (t, λ ne. tt)

    holds-HasContent : (c : Bytes) (d : Disk) → HasContent tmp c (holds tmp c d)
    unfolding holds
    holds-HasContent c d = (_, put_file_self tmp _ d, refl)

    pub write_all-Keeps : (c : Bytes) → Keeps P Anything (HasContent tmp c) (write_all tmp c)
    unfolding write_all
    write_all-Keeps c w t q = from w.outcomes
      where
        from :
            (os : List Outcome)
            → let end = write_all tmp c (record w { outcomes = os }) in
              Through P end.0 × (end.1 ≢ none → HasContent tmp c end.0.now)
        from [] = (t, λ ne. absurd (ne refl))
        from (succeeds cs ∷ os) =
            let v = passes_through_keeps cs (record w { outcomes = os }) t in
            (
              (holds_closed c _ v.0, v),
              λ ne. holds-HasContent c (passes_through tmp cs (record w { outcomes = os })).now,
            )
        from (fails cs ∷ os) =
            (passes_through_keeps cs (record w { outcomes = os }) t, λ ne. absurd (ne refl))

    pub write_synced-Keeps : (c : Bytes) → Keeps P Anything (HasContent tmp c) (write_synced tmp c)
    unfolding write_synced
    write_synced-Keeps c =
        let synced =
          then_Keeps (HasContent tmp c) (HasContent tmp c) (HasContent tmp c) syscall syscall
            (syscall-Keeps (HasContent tmp c)) (syscall-Keeps (HasContent tmp c)) in
        let written =
          then_Keeps Anything (HasContent tmp c) (HasContent tmp c) (write_all tmp c)
            (syscall >> syscall) (write_all-Keeps c) synced in
        then_Keeps Anything Anything (HasContent tmp c) (create tmp)
          (write_all tmp c >> (syscall >> syscall)) create-Keeps written

    pub set_permissions-Keeps :
        (c : Bytes) (m : ℕ)
        → Keeps P
            (HasContent tmp c)
            (λ d. d tmp ≡ some (record { content = c; mode = some m }))
            (set_permissions tmp m)
    unfolding set_permissions
    set_permissions-Keeps c m w t (f, there, same) = from w.outcomes
      where
        at_tmp :
            let d = put_file tmp (some (record f { mode = some m })) w.now in
            d tmp ≡ some (record { content = c; mode = some m })
        at_tmp = ground (arith, put_file_self tmp (some (record f { mode = some m })) w.now)

        from :
            (os : List Outcome)
            → let end = set_permissions tmp m (record w { outcomes = os }) in
              Through P end.0
              × (end.1 ≢ none → end.0.now tmp ≡ some (record { content = c; mode = some m }))
        from [] = (t, λ ne. absurd (ne refl))
        from (fails cs ∷ os) = (t, λ ne. absurd (ne refl))
        from (succeeds cs ∷ os) = rw there ((closed _ w.now t.0, t), λ ne. at_tmp)

    -- A rename out of that file, into one that `P` allows.
    pub rename-Keeps :
        (IsNew : Option File → Type 0) (to : FilePath)
        → ((f : File) (d : Disk) → P d → IsNew (some f) → P (put_file to (some f) d))
        → Keeps P (λ d. IsNew (d tmp)) Anything (rename tmp to)
    unfolding rename
    rename-Keeps IsNew to into w t new = from w.outcomes
      where
        found :
            (os : List Outcome) (cs : List Bytes) (o : Option File)
            → w.now tmp ≡ o
            → Through P (rename tmp to (record w { outcomes = succeeds cs ∷ os })).0
        found os cs none e = rw e t
        found os cs (some f) e =
            rw e (into f (put_file tmp none w.now) (closed none w.now t.0) (rw e at new), t)

        from :
            (os : List Outcome)
            → let end = rename tmp to (record w { outcomes = os }) in
              Through P end.0 × (end.1 ≢ none → Unit {0})
        from [] = (t, λ ne. tt)
        from (fails cs ∷ os) = (t, λ ne. tt)
        from (succeeds cs ∷ os) = (found os cs (w.now tmp) refl, λ ne. tt)

    pub remove_file_keeps : (w : World) → Through P w → Through P (remove_file tmp w).0
    unfolding remove_file
    remove_file_keeps w t = from w.outcomes
      where
        from : (os : List Outcome) → Through P (remove_file tmp (record w { outcomes = os })).0
        from [] = t
        from (fails cs ∷ os) = t
        from (succeeds cs ∷ os) = (closed none w.now t.0, t)

  pub read_file_keeps : (p : FilePath) (w : World) → Through P w → Through P (read_file p w).0
  unfolding read_file
  read_file_keeps p w t = from w.outcomes
    where
      found :
          (os : List Outcome) (cs : List Bytes) (o : Option File)
          → w.now p ≡ o
          → Through P (read_file p (record w { outcomes = succeeds cs ∷ os })).0
      found os cs none e = rw e t
      found os cs (some f) e = rw e t

      from : (os : List Outcome) → Through P (read_file p (record w { outcomes = os })).0
      from [] = t
      from (fails cs ∷ os) = t
      from (succeeds cs ∷ os) = found os cs (w.now p) refl

  pub best_effort_keeps : (w : World) → Through P w → Through P (best_effort syscall w).0
  best_effort_keeps w t = (syscall-Keeps Anything w t tt).0

  -- One step of a chain, and what follows it.
  pub then-Through :
      {A : Type 0} (Q R : Disk → Type 0) (m : Io (Unit {0})) (k : Io A)
      → Keeps P Q R m
      → ((v : World) → Through P v → R v.now → Through P (k v).0)
      → (w : World) → Through P w
      → Q w.now
      → Through P ((m >> k) w).0
  then-Through {A} Q R m k keeps next w t q = from (m w).0 (m w).1 (keeps w t q).0 (keeps w t q).1
    where
      from :
          (v : World) (r : Option (Unit {0}))
          → Through P v
          → (r ≢ none → R v.now)
          → let end : World × Option A = elim r [ none ↦ (v, none) | some a ↦ k v ] in
            Through P end.0
      from v none s after = s
      from v (some a) s after = next v s (after (λ e. cc))

  -- The same, where the step has a result.
  pub bind_keeps :
      {A B : Type 0} (m : Io A) (k : A → Io B) (w : World)
      → Through P (m w).0
      → ((a : A) → (m w).1 ≡ some a → Through P (k a (m w).0).0)
      → Through P ((m >>= k) w).0
  bind_keeps {A} {B} m k w t next = from (m w).0 (m w).1 t next
    where
      from :
          (v : World) (r : Option A)
          → Through P v
          → ((a : A) → r ≡ some a → Through P (k a v).0)
          → let end : World × Option B = elim r [ none ↦ (v, none) | some a ↦ k a v ] in
            Through P end.0
      from v none s after = s
      from v (some a) s after = after a refl

-- Inversion of a chain that has succeeded.
pub >>=-eq-some :
    {A B : Type 0} (m : Io A) (k : A → Io B) (w : World) (b : B)
    → ((m >>= k) w).1 ≡ some b
    → (a : A) × ((m w).1 ≡ some a) × ((k a (m w).0).1 ≡ some b)
>>=-eq-some {A} {B} m k w b e = from (m w).0 (m w).1 e
  where
    from :
        (v : World) (r : Option A)
        → (let end : World × Option B = elim r [ none ↦ (v, none) | some a ↦ k a v ] in end.1)
          ≡ some b
        → (a : A) × (r ≡ some a) × ((k a v).1 ≡ some b)
    from v none h = absurd (cc)
    from v (some a) h = (a, refl, h)
