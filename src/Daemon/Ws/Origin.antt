-- ===== src/Daemon/Ws/Origin.antt =====
-- Which origins may open a WebSocket.
use browser_skill.Prelude.{
  ℕ, ◌≤◌, ◌≡◌, refl, ◌↔◌, inl, inr, true, false, some, List, [], ◌∷◌, ◌++◌, arith, length, All,
  Option-cases,
}
use browser_skill.Daemon.Ws.{origin_allowed, strip_prefix, all_between, prefix}

strip_prefix_inv : (p s rest : List ℕ) → strip_prefix p s ≡ some rest → s ≡ p ++ rest
unfolding strip_prefix
strip_prefix_inv [] s rest e = ground arith
strip_prefix_inv (p ∷ ps) [] rest e = cc
strip_prefix_inv (p ∷ ps) (b ∷ bs) rest e = ground (arith, strip_prefix_inv ps bs rest)

abbrev pub IsBetween : ℕ → ℕ → ℕ → Type 0
IsBetween lo hi b = (lo ≤ b) × (b ≤ hi)

all_between-All : (lo hi : ℕ) (s : List ℕ) → all_between lo hi s ≡ true ↔ All (IsBetween lo hi) s
unfolding all_between
all_between-All lo hi [] = (λ e. tt, λ h. refl)
all_between-All lo hi (b ∷ bs) =
    let (to, from) = all_between-All lo hi bs in (λ e. ground arith, λ h. ground arith)

-- An origin of an extension: the scheme and 32 letters from a to p.
pub record IsExtension (origin : List ℕ) : Type 0 where
  pub id : List ℕ
  pub split : origin ≡ prefix ++ id
  pub size : length id ≡ 32
  pub letters : All (IsBetween b'a' b'p') id

-- Unless any origin is allowed, exactly the origins of extensions are: `chrome-extension://` and 32
-- letters from a to p, with nothing after them.
pub origin_allowed-IsExtension :
    (origin : List ℕ) → origin_allowed origin false ≡ true ↔ IsExtension origin
unfolding origin_allowed strip_prefix
origin_allowed-IsExtension origin = (
  λ e. elim (Option-cases (strip_prefix prefix origin)) [
    | inl none_left ↦ absurd (ground arith)
    | inr (rest, left) ↦ record {
      id = rest;
      split = strip_prefix_inv prefix origin rest left;
      size = ground arith;
      letters = (all_between-All b'a' b'p' rest).0 (ground arith);
    }
  ],
  λ h.
      let good = (all_between-All b'a' b'p' h.id).1 h.letters in
      let size = h.size in rw h.split (ground arith),
)
