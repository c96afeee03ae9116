-- ===== src/Protocol/Handshake/Decimal.antt =====
-- The numbers that `parse_major` reads.
use browser_skill.Prelude.{ℕ, ◌≤◌, ◌≡◌, refl, ◌↔◌, ◌≢◌, true, some, List, [], ◌∷◌, arith}
use browser_skill.Digits.{all_digits, decimal, parse_u64_at_zero}
use browser_skill.Protocol.Handshake.{split_dot, parse_segment, parse_major, max_protocol_major}

parse_segment-decimal :
    (seg : List ℕ) (n : ℕ)
    → (parse_segment seg ≡ some n)
      ↔ ((seg ≢ []) × (all_digits seg ≡ true) × (decimal seg ≡ n) × (n ≤ max_protocol_major))
unfolding parse_segment
parse_segment-decimal [] n = (λ h. ground arith, λ h. absurd (h.0 refl))
parse_segment-decimal (b ∷ bs) n = (
  λ h. (
    λ e. cc,
    ground (arith, parse_u64_at_zero (b ∷ bs)),
    ground (arith, parse_u64_at_zero (b ∷ bs)),
    ground (arith, parse_u64_at_zero (b ∷ bs)),
  ),
  λ h. ground (arith, parse_u64_at_zero (b ∷ bs)),
)

-- `parse_major` answers `n` exactly when the text before the first dot is a non-empty run of ASCII
-- digits that stands for `n`, and `n` is at most 2^53 - 1. Leading zeros are accepted, a sign is not.
pub parse_major-decimal :
    (v : List ℕ) (n : ℕ)
    → (parse_major v ≡ some n) ↔ (
        ((split_dot v).0 ≢ [])
        × (all_digits (split_dot v).0 ≡ true)
        × (decimal (split_dot v).0 ≡ n)
        × (n ≤ max_protocol_major))
unfolding parse_major
parse_major-decimal v n = parse_segment-decimal (split_dot v).0 n
