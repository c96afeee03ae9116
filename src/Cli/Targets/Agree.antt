-- ===== src/Cli/Targets/Agree.antt =====
-- The two readings of a target.
use browser_skill.Prelude.{
  ◌≡◌, refl, false, none, some, [], ◌∷◌, arith, ltb, ◌&&◌, ◌==◌, not, if◌then◌else◌,
}
use browser_skill.Digits.{all_digits, is_empty}
use browser_skill.Cli.Targets.{
  Text, trim, without_at, looks_like_ref, split_target, parse_target, starts_with_e, length_of,
  tail,
}

-- The test of `parse_target`, of the text without its mark.
same_test :
    (candidate : Text)
    → (starts_with_e candidate && ltb 1 (length_of candidate) && all_digits (tail candidate))
      ≡ elim candidate [
        | [] ↦ false
        | c ∷ rest ↦ if c == b'e' then not (is_empty rest) && all_digits rest else false
      ]
unfolding starts_with_e length_of tail is_empty
same_test [] = refl
same_test (c ∷ []) = ground arith
same_test (c ∷ d ∷ rest) = ground arith

-- A target of `bsk request-help` is taken for a ref exactly if the trimmed target is one for the
-- interaction commands; then both pass the trimmed text on as the ref, else both as the selector.
pub parse_target-split_target :
    (raw : Text)
    → split_target (some (trim raw)) none none
      ≡ some ((parse_target raw).ref, (parse_target raw).selector)
unfolding split_target looks_like_ref parse_target
parse_target-split_target raw = ground (arith, same_test (without_at (trim raw)))
