-- ===== src/Daemon/Browsers/Select.antt =====
-- Which client a request selects, and how long a request waits for one.
use browser_skill.Prelude.{
  text_discrete, ℕ, ◌≤◌, ◌≡◌, ◌↔◌, refl, ◌≢◌, ◌⊎◌, inl, inr, true, Option, none, some, List, [],
  ◌∷◌, String, arith, keep, Option-cases, Bool-cases, leb, is_some,
}
use browser_skill.Map.{lookup, values, Named, keep-eq-nil, keep-eq-one, keep-one, lookup-Named}
use browser_skill.Daemon.Browsers.{
  only_one, BrowserClient, Registry, Selected, ok, err, not_found, select, select_with_connect_wait,
  poll, by_label, has_label,
}

abbrev pub id_of : BrowserClient → String
id_of c = c.id

-- The client is the one that a non-empty text names: by its id, or, if no id is that text, as the
-- only client whose label it is.
pub record IsNamedBy (needle : String) (r : Registry) (c : BrowserClient) : Type 0 where
  pub registered : lookup c.id r ≡ some c
  pub named : (c.id ≡ needle) ⊎ ((lookup needle r ≡ none) × (c.label ≡ needle))
  pub only :
      (k : String) (d : BrowserClient)
      → lookup needle r ≡ none
      → lookup k r ≡ some d
      → d.label ≡ needle
      → d ≡ c

label_passes :
    (needle : String) (c : BrowserClient)
    → needle ≢ ""
    → c.label ≡ needle
    → has_label needle c ≡ true
unfolding has_label
label_passes needle c h e = ground arith

passes_label : (needle : String) (c : BrowserClient) → has_label needle c ≡ true → c.label ≡ needle
unfolding has_label
passes_label needle c h = ground arith

by_label-eq-ok :
    (needle : String) (l : List BrowserClient) (c : BrowserClient)
    → by_label needle l ≡ ok c
    → l ≡ c ∷ []
unfolding by_label
by_label-eq-ok needle [] c e = cc
by_label-eq-ok needle (d ∷ []) c e = cc
by_label-eq-ok needle (d ∷ d' ∷ l) c e = cc

select-ok-IsNamedBy :
    (needle : String) (r : Registry) (c : BrowserClient)
    → needle ≢ ""
    → Named id_of r
    → select (some needle) r ≡ ok c
    → IsNamedBy needle r c
unfolding select
select-ok-IsNamedBy needle r c h n e = elim (Option-cases (lookup needle r)) [
  | inl miss ↦
      let one : keep (has_label needle) (values r) ≡ c ∷ [] =
        by_label-eq-ok needle _ c (ground arith) in
      let found = keep-eq-one id_of (has_label needle) r c in
      record {
        registered = (found "" c n one).0;
        named = inr (miss, passes_label needle c (found "" c n one).1);
        only = λ k d _ l q. (found k d n one).2 l (label_passes needle d h q);
      }
  | inr (d, hit) ↦
      let same : d ≡ c = ground arith in
      let name = lookup-Named id_of needle r d n hit in
      record {
        registered = ground arith;
        named = inl (ground arith);
        only = λ k d' miss. absurd (cc);
      }
]

IsNamedBy-select :
    (needle : String) (r : Registry) (c : BrowserClient)
    → needle ≢ ""
    → Named id_of r
    → IsNamedBy needle r c
    → select (some needle) r ≡ ok c
unfolding select
IsNamedBy-select needle r c h n i = elim i.named [
  | inl same ↦ let there : lookup needle r ≡ some c = rw (← same) i.registered in ground arith
  | inr (miss, labelled) ↦
      let one : keep (has_label needle) (values r) ≡ c ∷ [] =
        keep-one id_of (has_label needle) r c n i.registered (label_passes needle c h labelled)
          (λ k d e q. i.only k d miss e (passes_label needle d q)) in
      ground arith
]

-- A request that names a client gets the client that it names, and no other: a client is selected for
-- a text exactly if the text is its id, or is no client's id and the label of this client alone. The
-- text must not be empty, and each client must stand in the registry under its own id.
pub select-IsNamedBy :
    (needle : String) (r : Registry) (c : BrowserClient)
    → needle ≢ ""
    → Named id_of r
    → (select (some needle) r ≡ ok c) ↔ IsNamedBy needle r c
select-IsNamedBy needle r c h n =
    (select-ok-IsNamedBy needle r c h n, IsNamedBy-select needle r c h n)

only_one-registered :
    (r : Registry) (c : BrowserClient)
    → Named id_of r
    → only_one (values r) ≡ ok c
    → lookup c.id r ≡ some c
unfolding only_one values lookup
only_one-registered [] c n e = absurd (cc)
only_one-registered ((k, w) ∷ []) c n e = let same : w ≡ c = cc in let name = n.0 in ground arith
only_one-registered ((k, w) ∷ (k', w') ∷ r) c n e = absurd (cc)

-- Whatever was asked for, a client that is selected is registered under its own id.
pub select-registered :
    (requested : Option String) (r : Registry) (c : BrowserClient)
    → Named id_of r
    → select requested r ≡ ok c
    → lookup c.id r ≡ some c
unfolding select
select-registered none r c n e = only_one-registered r c n e
select-registered (some needle) r c n e = elim (text_discrete needle "") [
  | yes blank ↦ only_one-registered r c n (ground arith)
  | no real ↦ (select-ok-IsNamedBy needle r c real n e).registered
]

by_label-eq-not_found :
    (needle : String) (l : List BrowserClient) → by_label needle l ≡ err not_found → l ≡ []
unfolding by_label
by_label-eq-not_found needle [] e = refl
by_label-eq-not_found needle (d ∷ []) e = cc
by_label-eq-not_found needle (d ∷ d' ∷ l) e = cc

-- `not_found` is the answer only if no registered client has the text as its id or its label.
pub select-not_found :
    (needle k : String) (r : Registry) (c : BrowserClient)
    → needle ≢ ""
    → Named id_of r
    → select (some needle) r ≡ err not_found
    → lookup k r ≡ some c
    → (c.id ≢ needle) × (c.label ≢ needle)
unfolding select
select-not_found needle k r c h n e l =
    let miss : lookup needle r ≡ none = ground arith in
    let empty : keep (has_label needle) (values r) ≡ [] =
      by_label-eq-not_found needle _ (ground arith) in
    let passes = keep-eq-nil (has_label needle) r k c empty l in
    let name = lookup-Named id_of k r c n l in
    (λ q. cc, λ q. ground (arith, label_passes needle c h q))

-- Some turn of the wait comes at or after the deadline.
abbrev pub Reaches : ℕ → List (ℕ × Registry × Registry) → Type 0
Reaches deadline [] = ⊥
Reaches deadline ((now, r, r') ∷ turns) = (deadline ≤ now) ⊎ Reaches deadline turns

poll_at_deadline :
    (deadline now : ℕ) (requested : Option String) (r r' : Registry)
    → deadline ≤ now
    → is_some (poll deadline requested now r r') ≡ true
unfolding poll
poll_at_deadline deadline now requested r r' h = ground arith

-- Some turn saw the registry from which the answer was selected.
abbrev pub SeenIn : Option String → Selected → List (ℕ × Registry × Registry) → Type 0
SeenIn requested s [] = ⊥
SeenIn requested s ((now, r, r') ∷ turns) =
    (select requested r ≡ s) ⊎ (select requested r' ≡ s) ⊎ SeenIn requested s turns

poll_answer :
    (deadline now : ℕ) (requested : Option String) (r r' : Registry) (s : Selected)
    → poll deadline requested now r r' ≡ some s
    → (select requested r ≡ s) ⊎ (select requested r' ≡ s)
unfolding poll
poll_answer deadline now requested r r' s e = elim (Bool-cases (leb deadline now)) [
  | inl over ↦ ground arith
  | inr early ↦ inl (ground arith)
]

-- The wait for a client ends: if some turn comes at or after the deadline there is an answer, and it
-- is what `select` answers for the registry of one of the turns.
pub select_with_connect_wait-answers :
    (deadline : ℕ) (requested : Option String) (turns : List (ℕ × Registry × Registry))
    → Reaches deadline turns
    → (s : Selected) × (select_with_connect_wait deadline requested turns ≡ some s)
      × SeenIn requested s turns
unfolding select_with_connect_wait
select_with_connect_wait-answers deadline requested [] h = absurd h
select_with_connect_wait-answers deadline requested ((now, r, r') ∷ turns) h =
    elim (Option-cases (poll deadline requested now r r')) [
      | inr (s, e) ↦ elim (poll_answer deadline now requested r r' s e) [
        | inl first ↦ (s, ground arith, inl first)
        | inr again ↦ (s, ground arith, inr (inl again))
      ]
      | inl e ↦
          let later : Reaches deadline turns =
            ground (arith, poll_at_deadline deadline now requested r r') in
          let (s, a, b) = select_with_connect_wait-answers deadline requested turns later in
          (s, ground arith, inr (inr b))
    ]
