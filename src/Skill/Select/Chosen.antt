-- ===== src/Skill/Select/Chosen.antt =====
-- Which harnesses a selection comes to.
use browser_skill.Prelude.{
  ℕ, ◌≤◌, ◌<◌, ◌≡◌, refl, inl, inr, Bool, false, ◌||◌, Option, none, some, List, [], ◌∷◌, arith,
  All, leb, ◌==◌, ◌∙◌, Bool-cases, Option-cases,
}
use browser_skill.Skill.Harness.{HarnessId, index}
use browser_skill.Skill.Select.{
  get_elem?, insert_by_index, sort_by_index, dedup_from, dedup, selected, harness_ids_from_indices,
}

abbrev pub has : HarnessId → List HarnessId → Bool
has k [] = false
has k (h ∷ hs) = index h == index k || has k hs

-- Whether the harness stands at one of the indices.
abbrev at : HarnessId → Option HarnessId → Bool
at k none = false
at k (some h) = index h == index k

abbrev pub stands_at : HarnessId → List HarnessId → List ℕ → Bool
stands_at k reports [] = false
stands_at k reports (i ∷ is) = at k (get_elem? reports i) || stands_at k reports is

-- From one bound on, and in increasing order.
abbrev AtLeast : ℕ → List HarnessId → Type 0
AtLeast n = All (λ h. n ≤ index h)

abbrev IsSorted : List HarnessId → Type 0
IsSorted [] = Unit
IsSorted (h ∷ hs) = AtLeast (index h) hs × IsSorted hs

abbrev pub IsIncreasing : List HarnessId → Type 0
IsIncreasing [] = Unit
IsIncreasing (h ∷ hs) = All (λ j. index h < index j) hs × IsIncreasing hs

AtLeast-mono : (m n : ℕ) (hs : List HarnessId) → m ≤ n → AtLeast n hs → AtLeast m hs
AtLeast-mono m n [] le a = tt
AtLeast-mono m n (h ∷ hs) le a = (omega arith, AtLeast-mono m n hs le a.1)

insert-AtLeast :
    (n : ℕ) (h : HarnessId) (js : List HarnessId)
    → n ≤ index h
    → AtLeast n js
    → AtLeast n (insert_by_index h js)
unfolding insert_by_index
insert-AtLeast n h [] le a = (le, tt)
insert-AtLeast n h (j ∷ js) le a = ground (arith, insert-AtLeast n h js)

insert-IsSorted :
    (h : HarnessId) (js : List HarnessId) → IsSorted js → IsSorted (insert_by_index h js)
unfolding insert_by_index
insert-IsSorted h [] s = (tt, tt)
insert-IsSorted h (j ∷ js) s = elim (Bool-cases (leb (index h) (index j))) [
  | inl before ↦
      rw before ((ground arith, AtLeast-mono (index h) (index j) js (ground arith) s.0), s)
  | inr after ↦
      rw after (insert-AtLeast (index j) h js (ground arith) s.0, insert-IsSorted h js s.1)
]

sort-IsSorted : (hs : List HarnessId) → IsSorted (sort_by_index hs)
unfolding sort_by_index
sort-IsSorted [] = tt
sort-IsSorted (h ∷ hs) = insert-IsSorted h (sort_by_index hs) (sort-IsSorted hs)

dedup_from-AtLeast :
    (n : ℕ) (h : HarnessId) (js : List HarnessId)
    → n ≤ index h
    → AtLeast n js
    → AtLeast n (dedup_from h js)
unfolding dedup_from
dedup_from-AtLeast n h [] le a = (le, tt)
dedup_from-AtLeast n h (j ∷ js) le a =
    ground (arith, dedup_from-AtLeast n h js, dedup_from-AtLeast n j js)

above : (n : ℕ) (hs : List HarnessId) (m : ℕ) → m < n → AtLeast n hs → All (λ j. m < index j) hs
above n [] m lt a = tt
above n (h ∷ hs) m lt a = (omega arith, above n hs m lt a.1)

dedup_from-IsIncreasing :
    (h : HarnessId) (js : List HarnessId)
    → AtLeast (index h) js
    → IsSorted js
    → IsIncreasing (dedup_from h js)
unfolding dedup_from
dedup_from-IsIncreasing h [] a s = (tt, tt)
dedup_from-IsIncreasing h (j ∷ js) a s = elim (Bool-cases (index h == index j)) [
  | inl same ↦ rw same (dedup_from-IsIncreasing h js a.1 s.1)
  | inr other ↦ rw other (
    above (index j) (dedup_from j js) (index h) (ground arith)
        (dedup_from-AtLeast (index j) j js (ground arith) s.0),
    dedup_from-IsIncreasing j js s.0 s.1,
  )
]

dedup-IsIncreasing : (hs : List HarnessId) → IsSorted hs → IsIncreasing (dedup hs)
unfolding dedup
dedup-IsIncreasing [] s = tt
dedup-IsIncreasing (h ∷ hs) s = dedup_from-IsIncreasing h hs s.0 s.1

has-insert :
    (k h : HarnessId) (js : List HarnessId)
    → has k (insert_by_index h js) ≡ (index h == index k || has k js)
unfolding insert_by_index
has-insert k h [] = refl
has-insert k h (j ∷ js) = ground (arith, has-insert k h js)

has-sort : (k : HarnessId) (hs : List HarnessId) → has k (sort_by_index hs) ≡ has k hs
unfolding sort_by_index
has-sort k [] = refl
has-sort k (h ∷ hs) = ground (arith, has-insert k h (sort_by_index hs), has-sort k hs)

has-dedup_from :
    (k h : HarnessId) (js : List HarnessId)
    → has k (dedup_from h js) ≡ (index h == index k || has k js)
unfolding dedup_from
has-dedup_from k h [] = refl
has-dedup_from k h (j ∷ js) = ground (arith, has-dedup_from k h js, has-dedup_from k j js)

has-dedup : (k : HarnessId) (hs : List HarnessId) → has k (dedup hs) ≡ has k hs
unfolding dedup
has-dedup k [] = refl
has-dedup k (h ∷ hs) = has-dedup_from k h hs

has-selected :
    (k : HarnessId) (reports : List HarnessId) (is : List ℕ) (hs : List HarnessId)
    → selected reports is ≡ some hs
    → has k hs ≡ stands_at k reports is
unfolding selected
has-selected k reports [] hs e = ground arith
has-selected k reports (i ∷ is) hs e = elim (Option-cases (get_elem? reports i)) [
  | inl out ↦ absurd (ground arith)
  | inr (h, there) ↦ elim (Option-cases (selected reports is)) [
    | inl bad ↦ absurd (ground arith)
    | inr (rest, good) ↦ ground (arith, has-selected k reports is rest good)
  ]
]

-- If a selection by indices is accepted, it lists, in the order of the harnesses and each once,
-- exactly those that stand at one of the indices.
pub harness_ids_from_indices-IsIncreasing :
    (reports : List HarnessId) (is : List ℕ) (hs : List HarnessId) (k : HarnessId)
    → harness_ids_from_indices reports is ≡ some hs
    → IsIncreasing hs × (has k hs ≡ stands_at k reports is)
unfolding harness_ids_from_indices
harness_ids_from_indices-IsIncreasing reports [] hs k e = absurd (cc)
harness_ids_from_indices-IsIncreasing reports (i ∷ is) hs k e =
    elim (Option-cases (selected reports (i ∷ is))) [
      | inl bad ↦ absurd (ground arith)
      | inr (found, good) ↦
          let same : dedup (sort_by_index found) ≡ hs = ground arith in
          rw (← same) (
            dedup-IsIncreasing (sort_by_index found) (sort-IsSorted found),
            has-dedup k (sort_by_index found)
                ∙ has-sort k found
                ∙ has-selected k reports (i ∷ is) found good,
          )
    ]
