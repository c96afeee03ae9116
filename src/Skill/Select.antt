-- ===== src/Skill/Select.antt =====
-- The choice of harnesses in the interactive installer, and the installation itself:
-- crates/bsk-cli/src/skill_install/mod.rs.
pub mod Chosen
use browser_skill.Prelude.{
  ℕ, zero, suc, ◌+◌, ◌≡◌, Bool, true, false, not, ◌&&◌, Option, none, some, List, [], ◌∷◌, ◌++◌,
  is_some, leb, ◌==◌, if◌then◌else◌,
}
use browser_skill.Files.{Bytes, FilePath, Io, ◌>>◌, World, draw, succeeds, fails, syscall}
use browser_skill.Skill.Harness.{HarnessId, index}
use browser_skill.Skill.Sync.{write_file}

abbrev pub get_elem? : List HarnessId → ℕ → Option HarnessId
get_elem? [] i = none
get_elem? (x ∷ xs) zero = some x
get_elem? (x ∷ xs) (suc i) = get_elem? xs i

-- `sort_by_key(|id| id.index())`, which is stable.
insert_by_index : HarnessId → List HarnessId → List HarnessId
insert_by_index h [] = h ∷ []
insert_by_index h (j ∷ js) =
    let rest = insert_by_index h js in if leb (index h) (index j) then h ∷ j ∷ js else j ∷ rest

sort_by_index : List HarnessId → List HarnessId
unfolding insert_by_index
sort_by_index [] = []
sort_by_index (h ∷ hs) = insert_by_index h (sort_by_index hs)

-- `Vec::dedup`: each run of equal elements is cut down to its first.
dedup_from : HarnessId → List HarnessId → List HarnessId
dedup_from h [] = h ∷ []
dedup_from h (j ∷ js) =
    let rest = dedup_from j js in
    let same = dedup_from h js in if index h == index j then same else h ∷ rest

dedup : List HarnessId → List HarnessId
unfolding dedup_from
dedup [] = []
dedup (h ∷ hs) = dedup_from h hs

-- The harnesses at the indices, unless one is out of range.
selected : List HarnessId → List ℕ → Option (List HarnessId)
selected reports [] = some []
selected reports (i ∷ is) =
    let rest = selected reports is in
    elim (get_elem? reports i) [
      | none ↦ none
      | some h ↦ elim rest [ none ↦ none | some hs ↦ some (h ∷ hs) ]
    ]

-- `none` for nothing selected, and for an index out of range. A report is taken by its id.
unfoldable pub harness_ids_from_indices : List HarnessId → List ℕ → Option (List HarnessId)
unfolding selected sort_by_index dedup
harness_ids_from_indices reports [] = none
harness_ids_from_indices reports (i ∷ is) = elim (selected reports (i ∷ is)) [
  | none ↦ none
  | some hs ↦ some (dedup (sort_by_index hs))
]

pub data InstallStatus : Type 0 where
  installed updated skipped : InstallStatus

-- `Path::exists`, which is false where the system cannot tell.
exists : FilePath → World → World × Bool
exists p w =
    let (w', o) = draw w in elim o [ fails _ ↦ (w', false) | succeeds _ ↦ (w', is_some (w'.now p)) ]

-- Both calls of `exists`, the second of which is made if the first has not led to a skip.
install_one_at_home : FilePath → Bytes → Bool → World → World × Option InstallStatus
unfolding exists syscall write_file
install_one_at_home dest source force w =
    let (w1, there) = exists dest w in
    if there && not force
    then (w1, some skipped)
    else (let (w2, existed) = exists dest w1 in
        let (w3, r) = (syscall >> write_file dest source) w2 in
        elim r [ none ↦ (w3, none) | some _ ↦ (w3, some (if existed then updated else installed)) ])

pub record InstallSkillOutput : Type 0 where
  pub results : List (HarnessId × InstallStatus)
  pub errors : List HarnessId

add_result : HarnessId → Option InstallStatus → InstallSkillOutput → InstallSkillOutput
add_result h none r = record r { errors = r.errors ++ (h ∷ []) }
add_result h (some s) r = record r { results = r.results ++ ((h, s) ∷ []) }

install_each :
    (HarnessId → FilePath)
    → Bytes
    → Bool
    → List HarnessId
    → InstallSkillOutput
    → World
    → World × InstallSkillOutput
unfolding install_one_at_home add_result
install_each dest source force [] r w = (w, r)
install_each dest source force (h ∷ hs) r w =
    let (w', s) = install_one_at_home (dest h) source force w in
    install_each dest source force hs (add_result h s r) w'

unfoldable pub install_to_harnesses_at_home :
    (HarnessId → FilePath) → Bytes → Bool → List HarnessId → World → World × InstallSkillOutput
unfolding install_each
install_to_harnesses_at_home dest source force hs w =
    install_each dest source force hs (record { results = []; errors = [] }) w

-- The exit code of `bsk install-skill`.
unfoldable pub exit_code : InstallSkillOutput → ℕ
exit_code r = elim r.errors [ [] ↦ 0 | e ∷ es ↦ 1 ]
