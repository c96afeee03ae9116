-- ===== src/Cli/Targets.antt =====
-- The element targets of the commands, as texts of characters:
-- crates/bsk-cli/src/cli/interaction.rs and human_loop.rs.
pub mod Agree
use browser_skill.Prelude.{
  ℕ, suc, ◌+◌, ◌*◌, ◌-◌, ◌^◌, Bool, true, false, ◌||◌, ◌&&◌, not, Option, none, some, List, [], ◌∷◌,
  ◌++◌, ltb, leb, ◌==◌, min, is_some, if◌then◌else◌,
}
use browser_skill.Digits.{all_digits, is_empty}

-- A text, as the code points of its characters.
abbrev pub Text : Type 0
Text = List ℕ

-- `strip_prefix(p).unwrap_or(s)` for one character.
unfoldable pub without_at : Text → Text
without_at [] = []
without_at (c ∷ cs) = if c == b'@' then cs else c ∷ cs

-- `char::is_whitespace`
unfoldable pub is_whitespace : ℕ → Bool
is_whitespace c =
    (leb 9 c && leb c 13)
    || c == 32
    || c == 133
    || c == 160
    || c == 5760
    || (leb 8192 c && leb c 8202)
    || c == 8232
    || c == 8233
    || c == 8239
    || c == 8287
    || c == 12288

unfoldable pub trim_start : Text → Text
trim_start [] = []
trim_start (c ∷ cs) = let rest = trim_start cs in if is_whitespace c then rest else c ∷ cs

unfoldable pub trim_end : Text → Text
trim_end [] = []
trim_end (c ∷ cs) = elim (trim_end cs) [
  | [] ↦ if is_whitespace c then [] else c ∷ []
  | d ∷ ds ↦ c ∷ d ∷ ds
]

unfoldable pub trim : Text → Text
unfolding trim_start trim_end
trim s = trim_end (trim_start s)

-- `looks_like_ref` of interaction.rs.
unfoldable pub looks_like_ref : Text → Bool
unfolding without_at all_digits is_empty
looks_like_ref target = elim (without_at target) [
  | [] ↦ false
  | c ∷ rest ↦ if c == b'e' then not (is_empty rest) && all_digits rest else false
]

-- A target of an interaction, a ref or a selector; `none` for a local error.
unfoldable pub split_target :
    Option Text → Option Text → Option Text → Option (Option Text × Option Text)
unfolding looks_like_ref
split_target none none none = none
split_target none (some r) none = some (some r, none)
split_target none none (some s) = some (none, some s)
split_target (some t) none none =
    if looks_like_ref t then some (some t, none) else some (none, some t)
split_target none (some r) (some s) = none
split_target (some t) (some r) e = none
split_target (some t) none (some s) = none

pub record HelpTarget : Type 0 where
  pub ref : Option Text
  pub selector : Option Text

starts_with_e : Text → Bool
starts_with_e [] = false
starts_with_e (c ∷ cs) = c == b'e'

length_of : Text → ℕ
length_of [] = 0
length_of (c ∷ cs) = suc (length_of cs)

tail : Text → Text
tail [] = []
tail (c ∷ cs) = cs

-- `parse_target` of human_loop.rs. Where the length and the slice count, the text is `e` and more.
unfoldable pub parse_target : Text → HelpTarget
unfolding trim without_at starts_with_e length_of tail all_digits
parse_target raw =
    let trimmed = trim raw in
    let candidate = without_at trimmed in
    if starts_with_e candidate && ltb 1 (length_of candidate) && all_digits (tail candidate)
    then record { ref = some trimmed; selector = none }
    else record { ref = none; selector = some trimmed }
