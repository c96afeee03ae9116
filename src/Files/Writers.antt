-- ===== src/Files/Writers.antt =====
-- The two ways in which the code writes a file by a temporary one: with a mode, and without.
use browser_skill.Prelude.{ℕ, ◌≡◌, refl, sym, subst, Option, some, List, []}
use browser_skill.Files.{
  World, put_file, Bytes, FilePath, File, Disk, Outcome, Io, ◌>>◌, pure, best_effort, syscall,
  set_permissions, write_synced, rename,
}
use browser_skill.Files.Traces.{
  Through, Anything, HasContent, rename-Keeps, best_effort_keeps, then-Through, syscall-Keeps,
  write_synced-Keeps, set_permissions-Keeps,
}
use browser_skill.Files.Atomic.{
  Untouched, Untouched-put_file, IsAtomic, then-IsAtomic, rename_synced-IsAtomic,
}

-- A file with this content, and with this mode.
abbrev pub IsText : Bytes → Option File → Type 0
IsText c o = (f : File) × (o ≡ some f) × (f.content ≡ c)

abbrev pub IsStamped : Bytes → ℕ → Option File → Type 0
IsStamped c m o = o ≡ some (record { content = c; mode = some m })

abbrev pub finish : {A : Type 0} → FilePath → FilePath → A → Io A
finish tmp target a = rename tmp target >> (best_effort syscall >> pure a)

abbrev pub plain_write : {A : Type 0} → FilePath → FilePath → Bytes → A → Io A
plain_write tmp target c a = syscall >> (write_synced tmp c >> finish tmp target a)

abbrev pub stamped_write : {A : Type 0} → FilePath → FilePath → Bytes → A → ℕ → Io A
stamped_write tmp target c a m =
    syscall >> (write_synced tmp c >> (set_permissions tmp m >> finish tmp target a))

module _ {A : Type 0} (tmp target : FilePath) (c : Bytes) (a : A) (d : Disk)
    (os : List Outcome) where
  pub plain_write-IsAtomic :
      IsAtomic
        (IsText c)
        tmp
        target
        d
        (plain_write tmp target c a (record { now = d; past = []; outcomes = os }))
  plain_write-IsAtomic =
      let P = Untouched tmp d in
      then-IsAtomic (IsText c) tmp target d Anything Anything syscall _ (syscall-Keeps P Anything)
        (then-IsAtomic (IsText c) tmp target d Anything (HasContent tmp c) (write_synced tmp c) _
          (write_synced-Keeps P tmp (Untouched-put_file tmp d) c)
          (rename_synced-IsAtomic (IsText c) tmp target a d))
        (record { now = d; past = []; outcomes = os }) (λ p ne. refl, tt) tt

  pub stamped_write-IsAtomic :
      (m : ℕ)
      → IsAtomic
          (IsStamped c m)
          tmp
          target
          d
          (stamped_write tmp target c a m (record { now = d; past = []; outcomes = os }))
  stamped_write-IsAtomic m =
      let P = Untouched tmp d in
      let closed = Untouched-put_file tmp d in
      let IsNew = IsStamped c m in
      then-IsAtomic IsNew tmp target d Anything Anything syscall _ (syscall-Keeps P Anything)
        (then-IsAtomic IsNew tmp target d Anything (HasContent tmp c) (write_synced tmp c) _
          (write_synced-Keeps P tmp closed c)
          (then-IsAtomic IsNew tmp target d (HasContent tmp c) (λ d'. IsNew (d' tmp))
            (set_permissions tmp m) _ (set_permissions-Keeps P tmp closed c m)
            (rename_synced-IsAtomic IsNew tmp target a d)))
        (record { now = d; past = []; outcomes = os }) (λ p ne. refl, tt) tt

-- A property that does not look at the temporary file, and allows the target to become the new file,
-- stays true at every moment.
module _ {A : Type 0} (P : Disk → Type 0) (tmp target : FilePath) (c : Bytes) (a : A)
    (closed : (f : Option File) (d : Disk) → P d → P (put_file tmp f d)) where
  finish_keeps :
      (IsNew : Option File → Type 0)
      → ((f : File) (d : Disk) → P d → IsNew (some f) → P (put_file target (some f) d))
      → (v : World) → Through P v
      → IsNew (v.now tmp)
      → Through P (finish tmp target a v).0
  finish_keeps IsNew into v t new =
      then-Through P (λ d. IsNew (d tmp)) Anything (rename tmp target)
        (best_effort syscall >> pure a) (rename-Keeps P tmp closed IsNew target into)
        (λ u s q. best_effort_keeps P u s) v t new

  pub plain_write_keeps :
      ((f : File) (d : Disk) → P d → P (put_file target (some f) d))
      → (w : World) → Through P w
      → Through P (plain_write tmp target c a w).0
  plain_write_keeps into w t =
      then-Through P Anything Anything syscall (write_synced tmp c >> finish tmp target a)
        (syscall-Keeps P Anything)
        (λ v s q.
          then-Through P Anything (HasContent tmp c) (write_synced tmp c) (finish tmp target a)
            (write_synced-Keeps P tmp closed c) (finish_keeps (IsText c) (λ f d p new. into f d p))
            v s q)
        w t tt

  pub stamped_write_keeps :
      (m : ℕ)
      → ((d : Disk) → P d → P (put_file target (some (record { content = c; mode = some m })) d))
      → (w : World) → Through P w
      → Through P (stamped_write tmp target c a m w).0
  stamped_write_keeps m into w t =
      let IsNew = IsStamped c m in
      let stamp = set_permissions tmp m >> finish tmp target a in
      then-Through P Anything Anything syscall (write_synced tmp c >> stamp)
        (syscall-Keeps P Anything)
        (λ v s q.
          then-Through P Anything (HasContent tmp c) (write_synced tmp c) stamp
            (write_synced-Keeps P tmp closed c)
            (λ v' s' q'.
              then-Through P (HasContent tmp c) (λ d. IsNew (d tmp)) (set_permissions tmp m)
                (finish tmp target a) (set_permissions-Keeps P tmp closed c m)
                (finish_keeps IsNew
                  (λ f d p new. subst (λ o. P (put_file target o d)) (sym new) (into d p)))
                v' s' q')
            v s q)
        w t tt
