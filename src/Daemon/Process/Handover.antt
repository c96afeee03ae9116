-- ===== src/Daemon/Process/Handover.antt =====
-- The durations that a daemon hands over to its replacement.
use browser_skill.Prelude.{
  ℕ, ◌*◌, ◌/◌, ◌%◌, ◌^◌, ◌≤◌, ◌≡◌, refl, sym, ap, ◌∙◌, ◌⊎◌, inl, inr, true, Option, none, some, [],
  ◌∷◌, ◌++◌, codes, arith, ◌==◌, Bool-cases, Option-cases, ◌≢◌, ◌||◌, if◌then◌else◌,
}
use browser_skill.Digits.{
  u64_max, all_digits, decimal, parse_u64, parse_u64_at_zero, show_decimal, show_decimal-decimal,
  show_decimal-digits, show_decimal-cons,
}
use browser_skill.Cli.Targets.{Text, trim, is_whitespace}
use browser_skill.Cli.Durations.{
  parsed, is_ascii_alphabetic, split_letters, in_unit, number_in, split_trimmed, parse_duration,
  read_u64, same, without_plus,
}
use browser_skill.Cli.Durations.Units.{solid, trim-solid, solid-append, read_u64-digits}
use browser_skill.Daemon.Process.{format_duration}

-- The durations that `parse_duration` answers.
abbrev Fits : ℕ → Type 0
Fits d = ((d % 1000 ≡ 0) × (d / 1000 ≤ u64_max)) ⊎ (d ≤ u64_max)

read_u64-le : (s : Text) (n : ℕ) → read_u64 s ≡ some n → n ≤ u64_max
unfolding read_u64
read_u64-le s n e = from (without_plus s) e
  where
    from :
        (t : Text)
        → (let r : Option ℕ = elim t [
          | [] ↦ none
          | c ∷ cs ↦ if all_digits (c ∷ cs) then parse_u64 0 (c ∷ cs) else none
        ] in
            r)
          ≡ some n
        → n ≤ u64_max
    from [] h = absurd (cc)
    from (c ∷ cs) h = ground (arith, parse_u64_at_zero (c ∷ cs))

seconds-Fits : (n d : ℕ) → n ≤ u64_max → parsed (n * 1000) ≡ parsed d → Fits d
seconds-Fits n d le e = inl (ground arith, ground arith)

in_unit-Fits : (n d : ℕ) (unit : Text) → n ≤ u64_max → in_unit n unit ≡ parsed d → Fits d
unfolding in_unit
in_unit-Fits n d unit le e = elim (Bool-cases (same unit [] || same unit (b's' ∷ []))) [
  | inl s ↦ seconds-Fits n d le (rw s at e)
  | inr not_s ↦ elim (Bool-cases (same unit (b'm' ∷ b's' ∷ []))) [
    | inl ms ↦ inr (ground arith)
    | inr not_ms ↦ elim (Bool-cases (same unit (b'm' ∷ []))) [
      | inl m ↦ seconds-Fits ((n * 60) % 2 ^ 64) d (omega arith) (ground arith)
      | inr not_m ↦ elim (Bool-cases (same unit (b'h' ∷ []))) [
        | inl h ↦ seconds-Fits ((((n * 60) % 2 ^ 64) * 60) % 2 ^ 64) d (omega arith) (ground arith)
        | inr not_h ↦ absurd (ground arith)
      ]
    ]
  ]
]

number_in-Fits : (num unit : Text) (d : ℕ) → number_in (num, unit) ≡ parsed d → Fits d
unfolding number_in
number_in-Fits num unit d e = elim (Option-cases (read_u64 num)) [
  | inl unread ↦ absurd (ground arith)
  | inr (n, read) ↦ in_unit-Fits n d unit (read_u64-le num n read) (rw (read, number_in) at e)
]

split_trimmed-Fits : (t : Text) (d : ℕ) → split_trimmed t ≡ parsed d → Fits d
unfolding split_trimmed
split_trimmed-Fits [] d e = absurd (cc)
split_trimmed-Fits (c ∷ cs) d e =
    number_in-Fits (split_letters (c ∷ cs)).0 (split_letters (c ∷ cs)).1 d e

-- The split at the first letter.
split_letters-digits :
    (ds cs : Text) (c : ℕ)
    → all_digits ds ≡ true
    → is_ascii_alphabetic c ≡ true
    → split_letters (ds ++ (c ∷ cs)) ≡ (ds, c ∷ cs)
unfolding split_letters all_digits is_ascii_alphabetic
split_letters-digits [] cs c h k = ground arith
split_letters-digits (d ∷ ds) cs c h k = ground (arith, split_letters-digits ds cs c)

parse_duration-trim : (t : Text) → parse_duration t ≡ split_trimmed (trim t)
unfolding parse_duration
parse_duration-trim t = refl

split_trimmed-cons :
    (c : ℕ) (cs : Text) → split_trimmed (c ∷ cs) ≡ number_in (split_letters (c ∷ cs))
unfolding split_trimmed
split_trimmed-cons c cs = refl

number_in-read :
    (num unit : Text) (n : ℕ) → read_u64 num ≡ some n → number_in (num, unit) ≡ in_unit n unit
unfolding number_in
number_in-read num unit n e = rw (e, number_in) refl

-- Digits and a unit.
parse_duration-digits :
    (d c : ℕ) (ds cs : Text)
    → all_digits (d ∷ ds) ≡ true
    → decimal (d ∷ ds) ≤ u64_max
    → is_ascii_alphabetic c ≡ true
    → solid (c ∷ cs) ≡ true
    → parse_duration ((d ∷ ds) ++ (c ∷ cs)) ≡ in_unit (decimal (d ∷ ds)) (c ∷ cs)
parse_duration-digits d c ds cs digits fits letter h =
    parse_duration-trim ((d ∷ ds) ++ (c ∷ cs))
    ∙ ap split_trimmed (trim-solid ((d ∷ ds) ++ (c ∷ cs)) (solid-append (d ∷ ds) (c ∷ cs) digits h))
    ∙ split_trimmed-cons d (ds ++ (c ∷ cs))
    ∙ ap number_in (split_letters-digits (d ∷ ds) cs c digits letter)
    ∙ number_in-read (d ∷ ds) (c ∷ cs) (decimal (d ∷ ds)) (read_u64-digits d ds digits fits)

-- A number that is shown, and a unit.
parse_duration-shown :
    (n c : ℕ) (cs : Text)
    → n ≤ u64_max
    → is_ascii_alphabetic c ≡ true
    → solid (c ∷ cs) ≡ true
    → parse_duration (show_decimal n ++ (c ∷ cs)) ≡ in_unit n (c ∷ cs)
parse_duration-shown n c cs le letter h =
    let (d, ds, shown) = show_decimal-cons n in
    let value : decimal (d ∷ ds) ≡ n = ap decimal (sym shown) ∙ show_decimal-decimal n in
    ap (λ t. parse_duration (t ++ (c ∷ cs))) shown
    ∙ parse_duration-digits d c ds cs (ap all_digits (sym shown) ∙ show_decimal-digits n)
        (omega (arith, value)) letter h
    ∙ ap (λ m. in_unit m (c ∷ cs)) value

seconds_unit : (n : ℕ) → in_unit n (codes "s") ≡ parsed (n * 1000)
unfolding in_unit same
seconds_unit n = refl

millis_unit : (n : ℕ) → in_unit n (codes "ms") ≡ parsed n
unfolding in_unit same
millis_unit n = refl

letters : (is_ascii_alphabetic b's' ≡ true) × (is_ascii_alphabetic b'm' ≡ true)
unfolding is_ascii_alphabetic
letters = (refl, refl)

solids : (solid (codes "s") ≡ true) × (solid (codes "ms") ≡ true)
unfolding solid is_whitespace
solids = (refl, refl)

parse_duration-Fits : (d : ℕ) → Fits d → parse_duration (format_duration d) ≡ parsed d
unfolding format_duration
parse_duration-Fits d fits = elim (Bool-cases (d % 1000 == 0)) [
  | inl whole ↦ rw whole (
      parse_duration-shown (d / 1000) b's' [] (whole_fits fits) letters.0 solids.0
      ∙ seconds_unit (d / 1000)
      ∙ ap parsed (ground arith))
  | inr rest ↦ rw rest (
      parse_duration-shown d b'm' (b's' ∷ []) (rest_fits fits (ground arith)) letters.1 solids.1
      ∙ millis_unit d)
]
  where
    whole_fits : Fits d → d / 1000 ≤ u64_max
    whole_fits (inl (m, le)) = le
    whole_fits (inr le) = omega arith

    rest_fits : Fits d → d % 1000 ≢ 0 → d ≤ u64_max
    rest_fits (inl (m, le)) ne = absurd (ne m)
    rest_fits (inr le) ne = le

-- A duration that was accepted on a command line is written, for the command line of a replacement
-- daemon, as a text that is accepted as the same duration.
pub parse_duration-format_duration :
    (s : Text) (d : ℕ) → parse_duration s ≡ parsed d → parse_duration (format_duration d) ≡ parsed d
parse_duration-format_duration s d e =
    parse_duration-Fits d (split_trimmed-Fits (trim s) d (sym (parse_duration-trim s) ∙ e))
