-- ===== src/Cli/Durations/Units.antt =====
-- The number and the unit of a duration.
use browser_skill.Prelude.{
  ℕ, ◌≤◌, ◌*◌, ◌≡◌, refl, ap, ◌∙◌, Bool, true, not, ◌&&◌, none, some, [], ◌∷◌, ◌++◌, arith, min,
}
use browser_skill.Digits.{u64_max, all_digits, decimal, parse_u64_at_zero}
use browser_skill.Cli.Targets.{Text, trim, is_whitespace, trim_start, trim_end}
use browser_skill.Cli.Durations.{
  parsed, same, strip_suffix, split_unit, without_plus, read_u64, milliseconds, trimmed, with_unit,
  number_of, parse_duration_ms,
}

abbrev pub ms_text : Text
ms_text = b'm' ∷ b's' ∷ []

abbrev pub s_text : Text
s_text = b's' ∷ []

abbrev pub m_text : Text
m_text = b'm' ∷ []

strip_ms_of_ms : (ds : Text) → all_digits ds ≡ true → strip_suffix ms_text (ds ++ ms_text) ≡ some ds
unfolding strip_suffix same all_digits
strip_ms_of_ms [] h = refl
strip_ms_of_ms (d ∷ ds) h = ground (arith, strip_ms_of_ms ds)

strip_ms_of_s : (ds : Text) → all_digits ds ≡ true → strip_suffix ms_text (ds ++ s_text) ≡ none
unfolding strip_suffix same all_digits
strip_ms_of_s [] h = refl
strip_ms_of_s (d ∷ ds) h = ground (arith, strip_ms_of_s ds)

strip_ms_of_m : (ds : Text) → all_digits ds ≡ true → strip_suffix ms_text (ds ++ m_text) ≡ none
unfolding strip_suffix same all_digits
strip_ms_of_m [] h = refl
strip_ms_of_m (d ∷ ds) h = ground (arith, strip_ms_of_m ds)

strip_s_of_s : (ds : Text) → all_digits ds ≡ true → strip_suffix s_text (ds ++ s_text) ≡ some ds
unfolding strip_suffix same all_digits
strip_s_of_s [] h = refl
strip_s_of_s (d ∷ ds) h = ground (arith, strip_s_of_s ds)

strip_s_of_m : (ds : Text) → all_digits ds ≡ true → strip_suffix s_text (ds ++ m_text) ≡ none
unfolding strip_suffix same all_digits
strip_s_of_m [] h = refl
strip_s_of_m (d ∷ ds) h = ground (arith, strip_s_of_m ds)

strip_m_of_m : (ds : Text) → all_digits ds ≡ true → strip_suffix m_text (ds ++ m_text) ≡ some ds
unfolding strip_suffix same all_digits
strip_m_of_m [] h = refl
strip_m_of_m (d ∷ ds) h = ground (arith, strip_m_of_m ds)

unfoldable pub solid : Text → Bool
solid [] = true
solid (c ∷ cs) = not (is_whitespace c) && solid cs

trim_end-solid : (t : Text) → solid t ≡ true → trim_end t ≡ t
unfolding trim_end solid
trim_end-solid [] h = refl
trim_end-solid (c ∷ cs) h = ground (arith, trim_end-solid cs)

pub trim-solid : (t : Text) → solid t ≡ true → trim t ≡ t
unfolding trim trim_start solid
trim-solid [] h = refl
trim-solid (c ∷ cs) h = ground (arith, trim_end-solid (c ∷ cs) h)

solid-digits : (ds : Text) → all_digits ds ≡ true → solid ds ≡ true
unfolding solid all_digits is_whitespace
solid-digits [] h = refl
solid-digits (d ∷ ds) h = ground (arith, solid-digits ds)

pub solid-append : (ds t : Text) → all_digits ds ≡ true → solid t ≡ true → solid (ds ++ t) ≡ true
unfolding solid all_digits is_whitespace
solid-append [] t h k = k
solid-append (d ∷ ds) t h k = ground (arith, solid-append ds t)

pub read_u64-digits :
    (d : ℕ) (ds : Text)
    → all_digits (d ∷ ds) ≡ true
    → decimal (d ∷ ds) ≤ u64_max
    → read_u64 (d ∷ ds) ≡ some (decimal (d ∷ ds))
unfolding read_u64 without_plus all_digits
read_u64-digits d ds h fits = ground (arith, parse_u64_at_zero (d ∷ ds))

number_of-read :
    (num : Text) (unit n : ℕ)
    → read_u64 num ≡ some n
    → number_of num unit ≡ parsed (min (n * unit) u64_max)
unfolding number_of
number_of-read num unit n e = rw (e, number_of) refl

with_unit-trim : (num : Text) (unit : ℕ) → with_unit (num, unit) ≡ number_of (trim num) unit
unfolding with_unit
with_unit-trim num unit = refl

trimmed-split : (c : ℕ) (cs : Text) → trimmed (c ∷ cs) ≡ with_unit (split_unit (c ∷ cs))
unfolding trimmed
trimmed-split c cs = refl

milliseconds-trim : (t : Text) → milliseconds t ≡ trimmed (trim t)
unfolding milliseconds
milliseconds-trim t = refl

milliseconds-unit :
    (d c : ℕ) (ds cs : Text) (unit : ℕ)
    → solid (c ∷ cs) ≡ true
    → split_unit (c ∷ cs) ≡ (d ∷ ds, unit)
    → all_digits (d ∷ ds) ≡ true
    → decimal (d ∷ ds) ≤ u64_max
    → milliseconds (c ∷ cs) ≡ parsed (min (decimal (d ∷ ds) * unit) u64_max)
milliseconds-unit d c ds cs unit h split digits fits =
    milliseconds-trim (c ∷ cs)
    ∙ ap trimmed (trim-solid (c ∷ cs) h)
    ∙ trimmed-split c cs
    ∙ ap with_unit split
    ∙ with_unit-trim (d ∷ ds) unit
    ∙ ap (λ t. number_of t unit) (trim-solid (d ∷ ds) (solid-digits (d ∷ ds) digits))
    ∙ number_of-read (d ∷ ds) unit (decimal (d ∷ ds)) (read_u64-digits d ds digits fits)

-- The units of a duration.
pub data TimeUnit : Type 0 where
  milli second minute : TimeUnit

abbrev pub suffix : TimeUnit → Text
suffix milli = ms_text
suffix second = s_text
suffix minute = m_text

abbrev pub factor : TimeUnit → ℕ
factor milli = 1
factor second = 1000
factor minute = 60000

split_unit-suffix :
    (u : TimeUnit) (ds : Text) → all_digits ds ≡ true → split_unit (ds ++ suffix u) ≡ (ds, factor u)
unfolding split_unit
split_unit-suffix milli ds h = rw (strip_ms_of_ms ds h, split_unit) refl
split_unit-suffix second ds h = rw (strip_ms_of_s ds h, strip_s_of_s ds h, split_unit) refl
split_unit-suffix minute ds h =
    rw (strip_ms_of_m ds h, strip_s_of_m ds h, strip_m_of_m ds h, split_unit) refl

solid-suffix : (u : TimeUnit) → solid (suffix u) ≡ true
unfolding solid is_whitespace
solid-suffix milli = refl
solid-suffix second = refl
solid-suffix minute = refl

-- A decimal number that fits 64 bits, with a unit after it, is read as that many milliseconds, seconds
-- or minutes, in milliseconds, and as the greatest number of 64 bits where those are more.
pub parse_duration_ms-unit :
    (d : ℕ) (ds : Text) (u : TimeUnit)
    → all_digits (d ∷ ds) ≡ true
    → decimal (d ∷ ds) ≤ u64_max
    → parse_duration_ms ((d ∷ ds) ++ suffix u) ≡ parsed (min (decimal (d ∷ ds) * factor u) u64_max)
unfolding parse_duration_ms
parse_duration_ms-unit d ds u digits fits =
    milliseconds-unit d d ds (ds ++ suffix u) (factor u)
      (solid-append (d ∷ ds) (suffix u) digits (solid-suffix u))
      (split_unit-suffix u (d ∷ ds) digits) digits fits
