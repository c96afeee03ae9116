-- ===== src/Map.antt =====
-- A `HashMap` with text keys, as an association list. The order of the entries stands for the
-- unspecified order in which a `HashMap` is walked.
use browser_skill.Prelude.{
  ◌≡◌, refl, ite, List, [], ◌∷◌, Option, none, some, Bool, true, false, arith, String,
  text_discrete, map, keep, All, is_some, Bool-cases, inl, inr,
}

abbrev pub Map {ℓ} : Type ℓ → Type ℓ
Map V = List (String × V)

pub contains : String → List String → Bool
contains k [] = false
contains k (j ∷ ks) = ite (text_discrete j k) true (contains k ks)

module _ {ℓ} {V : Type ℓ} where
  unfoldable pub lookup : String → Map V → Option V
  lookup k [] = none
  lookup k ((j, v) ∷ m) = ite (text_discrete j k) (some v) (lookup k m)

  unfoldable pub insert : String → V → Map V → Map V
  insert k v [] = (k, v) ∷ []
  insert k v ((j, w) ∷ m) = ite (text_discrete j k) ((k, v) ∷ m) ((j, w) ∷ insert k v m)

  unfoldable pub remove : String → Map V → Map V
  remove k [] = []
  remove k ((j, w) ∷ m) = ite (text_discrete j k) (remove k m) ((j, w) ∷ remove k m)

  unfoldable pub values : Map V → List V
  values [] = []
  values ((j, w) ∷ m) = w ∷ values m

  -- `for k in ks { m.remove(k) }`
  unfoldable pub remove_all : List String → Map V → Map V
  remove_all [] m = m
  remove_all (k ∷ ks) m = remove_all ks (remove k m)

  pub lookup-insert :
      (j k : String) (v : V) (m : Map V)
      → lookup j (insert k v m) ≡ ite (text_discrete k j) (some v) (lookup j m)
  unfolding lookup insert
  lookup-insert j k v [] = refl
  lookup-insert j k v ((i, w) ∷ m) = ground (arith, lookup-insert j k v m)

  pub lookup-remove :
      (j k : String) (m : Map V) → lookup j (remove k m) ≡ ite (text_discrete k j) none (lookup j m)
  unfolding lookup remove
  lookup-remove j k [] = ground arith
  lookup-remove j k ((i, w) ∷ m) = ground (arith, lookup-remove j k m)

  pub lookup-remove_all :
      (j : String) (ks : List String) (m : Map V)
      → lookup j (remove_all ks m) ≡ elim (contains j ks) [ true ↦ none | false ↦ lookup j m ]
  unfolding remove_all contains
  lookup-remove_all j [] m = refl
  lookup-remove_all j (k ∷ ks) m =
      ground (arith, lookup-remove_all j ks (remove k m), lookup-remove j k m)

module _ {ℓ} {V : Type ℓ} where
  abbrev pub passes : (V → Bool) → Option V → Bool
  passes p none = false
  passes p (some v) = p v

  pub keep-eq-nil :
      (p : V → Bool) (m : Map V) (k : String) (v : V)
      → keep p (values m) ≡ []
      → lookup k m ≡ some v
      → p v ≡ false
  unfolding values lookup
  keep-eq-nil p [] k v e l = cc
  keep-eq-nil p ((j, w) ∷ m) k v e l = ground (arith, keep-eq-nil p m k v)

-- Values that carry their own key, as sessions and browsers do.
module _ {ℓ} {V : Type ℓ} (name_of : V → String) where
  -- Each value stands under its own name, and no key stands twice.
  abbrev pub Named : Map V → Type ℓ
  Named [] = Unit
  Named ((k, v) ∷ m) = (name_of v ≡ k) × (lookup k m ≡ none) × Named m

  pub insert-Named : (v : V) (m : Map V) → Named m → Named (insert (name_of v) v m)
  unfolding insert lookup
  insert-Named v [] h = (refl, refl, tt)
  insert-Named v ((k, w) ∷ m) h =
      ground (arith, insert-Named v m h.2, lookup-insert k (name_of v) v m)

  pub remove-Named : (k : String) (m : Map V) → Named m → Named (remove k m)
  unfolding remove lookup
  remove-Named k [] h = tt
  remove-Named k ((j, w) ∷ m) h = ground (arith, remove-Named k m h.2, lookup-remove j k m)

  pub remove_all-Named : (ks : List String) (m : Map V) → Named m → Named (remove_all ks m)
  unfolding remove_all
  remove_all-Named [] m h = h
  remove_all-Named (k ∷ ks) m h = remove_all-Named ks (remove k m) (remove-Named k m h)

  pub lookup-Named :
      (k : String) (m : Map V) (v : V) → Named m → lookup k m ≡ some v → name_of v ≡ k
  unfolding lookup
  lookup-Named k [] v h e = cc
  lookup-Named k ((j, w) ∷ m) v h e = ground (arith, lookup-Named k m v h.2)

  -- The names of the values that pass a test are the keys whose entry passes it.
  pub contains-keep :
      (p : V → Bool) (j : String) (m : Map V)
      → Named m
      → contains j (map name_of (keep p (values m))) ≡ passes p (lookup j m)
  unfolding values lookup contains
  contains-keep p j [] h = refl
  contains-keep p j ((k, v) ∷ m) h = ground (arith, contains-keep p j m h.2)

  -- The names of all values are the keys.
  pub contains-values :
      (j : String) (m : Map V)
      → Named m
      → contains j (map name_of (values m)) ≡ is_some (lookup j m)
  unfolding values lookup contains
  contains-values j [] h = refl
  contains-values j ((k, v) ∷ m) h = ground (arith, contains-values j m h.2)

  -- What holds of each entry holds of each value.
  pub All-values {κ} :
      (P : V → Type κ) (m : Map V)
      → Named m
      → ((k : String) (v : V) → lookup k m ≡ some v → P v)
      → All P (values m)
  unfolding values lookup
  All-values P [] h each = tt
  All-values P ((k, v) ∷ m) h each =
      (each k v (ground arith), All-values P m h.2 (λ j w e. each j w (ground arith)))

  -- If one value passes a test, it is registered, and any registered value that passes is that one.
  pub keep-eq-one :
      (p : V → Bool) (m : Map V) (c : V) (k : String) (v : V)
      → Named m
      → keep p (values m) ≡ c ∷ []
      → (lookup (name_of c) m ≡ some c) × (p c ≡ true) × (lookup k m ≡ some v → p v ≡ true → v ≡ c)
  unfolding values lookup
  keep-eq-one p [] c k v h e = absurd (cc)
  keep-eq-one p ((j, w) ∷ m) c k v h e = elim (Bool-cases (p w)) [
    | inl t ↦ (ground arith, ground arith, λ l q. ground (arith, keep-eq-nil p m k v))
    | inr f ↦
        let ih = keep-eq-one p m c k v h.2 (rw f at e) in
        (ground (arith, ih.0), ih.1, λ l q. ground (arith, ih.2))
  ]

  -- No registered value passes a test.
  keep-none :
      (p : V → Bool) (m : Map V)
      → Named m
      → ((k : String) (v : V) → lookup k m ≡ some v → p v ≡ false)
      → keep p (values m) ≡ []
  unfolding values lookup
  keep-none p [] h never = refl
  keep-none p ((j, w) ∷ m) h never =
      let here = never j w (ground arith) in
      let rest = keep-none p m h.2 (λ k v e. never k v (ground arith)) in ground arith

  -- Conversely, the only registered value that passes a test is what is kept.
  pub keep-one :
      (p : V → Bool) (m : Map V) (c : V)
      → Named m
      → lookup (name_of c) m ≡ some c
      → p c ≡ true
      → ((k : String) (v : V) → lookup k m ≡ some v → p v ≡ true → v ≡ c)
      → keep p (values m) ≡ c ∷ []
  unfolding values lookup
  keep-one p [] c h there t only = absurd (cc)
  keep-one p ((j, w) ∷ m) c h there t only = elim (Bool-cases (p w)) [
    | inl passes ↦
        let same = only j w (ground arith) passes in
        let rest : keep p (values m) ≡ [] = keep-none p m h.2 (λ k v e. elim (Bool-cases (p v)) [
          | inr f ↦ f
          | inl q ↦
              let name = lookup-Named k m v h.2 e in
              let twin = only k v (ground arith) q in absurd (ground arith)
        ]) in
        ground arith
    | inr fails ↦
        let rest = keep-one p m c h.2 (ground arith) t (λ k v e q. only k v (ground arith) q) in
        ground arith
  ]
