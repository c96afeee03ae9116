-- ===== src/Files.antt =====
-- Files on disk, and the calls of std::fs that the code makes on them. Each call has an outcome that
-- the system decides; the world keeps every state that the disk has gone through, as another process,
-- or one that starts after a crash, can find it.
pub mod Traces
pub mod Atomic
pub mod Writers
use browser_skill.Prelude.{
  ℕ, ◌≡◌, Option, none, some, List, [], ◌∷◌, String, ite, text_discrete, ℕ_discrete, ◌++◌, codes,
  length,
}

abbrev pub Bytes : Type 0
Bytes = List ℕ

-- A path, as far as the code looks at it: its parent, and its last component where that is UTF-8.
pub record FilePath : Type 0 where
  pub parent : Option String
  pub file_name : Option Bytes

unfoldable pub FilePath_discrete : Discrete FilePath
FilePath_discrete = hlevel (text_discrete, ℕ_discrete)

abbrev pub with_file_name : FilePath → Bytes → FilePath
with_file_name p name = record p { file_name = some name }

abbrev pub path_of : Option String → Bytes → FilePath
path_of parent name = record { parent = parent; file_name = some name }

-- Names of different lengths are different paths.
abbrev pub name_length : FilePath → ℕ
name_length p = elim p.file_name [ none ↦ 0 | some n ↦ length n ]

-- The mode is `none` where the code leaves it to the system.
pub record File : Type 0 where
  pub content : Bytes
  pub mode : Option ℕ

abbrev pub Disk : Type 0
Disk = FilePath → Option File

abbrev pub put_file : FilePath → Option File → Disk → Disk
put_file p f d q = ite (FilePath_discrete q p) f (d q)

-- A write, whether it succeeds or fails, can leave any contents on its way.
pub data Outcome : Type 0 where
  succeeds fails : List Bytes → Outcome

pub record World : Type 0 where
  pub now : Disk
  pub past : List Disk
  pub outcomes : List Outcome

-- `none` is the error that `?` returns.
abbrev pub Io : Type 0 → Type 0
Io A = World → World × Option A

infixl 5 ◌>>=◌ ◌>>◌
abbrev pub ◌>>=◌ : {A B : Type 0} → Io A → (A → Io B) → Io B
◌>>=◌ m f w = let (w', r) = m w in elim r [ none ↦ (w', none) | some a ↦ f a w' ]

abbrev pub ◌>>◌ : {A B : Type 0} → Io A → Io B → Io B
m >> k = m >>= λ _. k

abbrev pub pure : {A : Type 0} → A → Io A
pure a w = (w, some a)

abbrev pub of_option : {A : Type 0} → Option A → Io A
of_option o w = (w, o)

-- `let _ = ...`
abbrev pub best_effort : {A : Type 0} → Io A → Io (Unit {0})
best_effort m w = ((m w).0, some tt)

abbrev pub becomes : Disk → World → World
becomes d w = record w { now = d; past = w.now ∷ w.past }

abbrev pub draw : World → World × Outcome
draw w = elim w.outcomes [ [] ↦ (w, fails []) | o ∷ os ↦ (record w { outcomes = os }, o) ]

-- A call that changes no file that the code looks at: `create_dir_all`, `flush`, `sync_all`.
unfoldable pub syscall : Io (Unit {0})
syscall w = let (w', o) = draw w in elim o [ succeeds _ ↦ (w', some tt) | fails _ ↦ (w', none) ]

old_mode : FilePath → Disk → Option ℕ
old_mode p d = elim (d p) [ none ↦ none | some f ↦ f.mode ]

holds : FilePath → Bytes → Disk → Disk
unfolding old_mode
holds p c d = put_file p (some (record { content = c; mode = old_mode p d })) d

-- A file takes some contents, one after the other.
passes_through : FilePath → List Bytes → World → World
unfolding holds
passes_through p [] w = w
passes_through p (c ∷ cs) w = passes_through p cs (becomes (holds p c w.now) w)

-- `File::create` makes the file empty.
unfoldable pub create : FilePath → Io (Unit {0})
unfolding holds
create p w =
    let (w', o) = draw w in
    elim o [ succeeds _ ↦ (becomes (holds p [] w'.now) w', some tt) | fails _ ↦ (w', none) ]

unfoldable pub write_all : FilePath → Bytes → Io (Unit {0})
unfolding passes_through holds
write_all p c w =
    let (w', o) = draw w in
    elim o [
      | succeeds cs ↦ (let v = passes_through p cs w' in (becomes (holds p c v.now) v, some tt))
      | fails cs ↦ (passes_through p cs w', none)
    ]

unfoldable pub set_permissions : FilePath → ℕ → Io (Unit {0})
set_permissions p m w =
    let (w', o) = draw w in
    elim o [
      | fails _ ↦ (w', none)
      | succeeds _ ↦ elim (w'.now p) [
        | none ↦ (w', none)
        | some f ↦ (becomes (put_file p (some (record f { mode = some m })) w'.now) w', some tt)
      ]
    ]

-- A rename replaces its target in one step.
unfoldable pub rename : FilePath → FilePath → Io (Unit {0})
rename from to w =
    let (w', o) = draw w in
    elim o [
      | fails _ ↦ (w', none)
      | succeeds _ ↦ elim (w'.now from) [
        | none ↦ (w', none)
        | some f ↦ (becomes (put_file to (some f) (put_file from none w'.now)) w', some tt)
      ]
    ]

unfoldable pub remove_file : FilePath → Io (Unit {0})
remove_file p w =
    let (w', o) = draw w in
    elim o [ fails _ ↦ (w', none) | succeeds _ ↦ (becomes (put_file p none w'.now) w', some tt) ]

-- What a read finds: an error other than `NotFound` is `unreadable`.
pub data Contents : Type 0 where
  absent unreadable : Contents
  contents : Bytes → Contents

unfoldable pub read_file : FilePath → World → World × Contents
read_file p w =
    let (w', o) = draw w in
    elim o [
      | fails _ ↦ (w', unreadable)
      | succeeds _ ↦ elim (w'.now p) [ none ↦ (w', absent) | some f ↦ (w', contents f.content) ]
    ]

-- The temporary file `<name>.tmp.<pid>` beside a file, where `default` stands for a name that is not
-- UTF-8.
unfoldable pub tmp_beside : String → Bytes → FilePath → FilePath
tmp_beside default pid p =
    with_file_name p
      (elim p.file_name [ none ↦ codes default | some name ↦ name ] ++ (codes ".tmp." ++ pid))

-- `File::create`, `write_all`, `flush` and `sync_all`, as three of the writers have it.
unfoldable pub write_synced : FilePath → Bytes → Io (Unit {0})
write_synced p c = do create p; write_all p c; syscall; syscall
