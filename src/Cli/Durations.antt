-- ===== src/Cli/Durations.antt =====
-- The durations of the commands: `parse_timeout_ms` in crates/bsk-cli/src/cli/navigate.rs and
-- `parse_duration_ms` in waits.rs, and
-- `parse_duration` in daemon.rs.
pub mod Accepted
pub mod Units
use browser_skill.Prelude.{
  ℕ, ◌+◌, ◌*◌, ◌-◌, ◌^◌, Bool, true, false, ◌&&◌, ◌||◌, ◌%◌, leb, Option, none, some, List, [], ◌∷◌,
  ltb, ◌==◌, min, if◌then◌else◌,
}
use browser_skill.Cli.Targets.{Text, trim}
use browser_skill.Digits.{u64_max, u32_max, all_digits, parse_u64}

unfoldable pub same : Text → Text → Bool
same [] [] = true
same [] (d ∷ ds) = false
same (c ∷ cs) [] = false
same (c ∷ cs) (d ∷ ds) = c == d && same cs ds

-- `str::strip_suffix`
unfoldable pub strip_suffix : Text → Text → Option Text
unfolding same
strip_suffix suffix [] = if same [] suffix then some [] else none
strip_suffix suffix (c ∷ cs) =
    let rest = strip_suffix suffix cs in
    if same (c ∷ cs) suffix
    then some []
    else elim rest [ none ↦ none | some kept ↦ some (c ∷ kept) ]

unfoldable pub without_plus : Text → Text
without_plus [] = []
without_plus (c ∷ cs) = if c == b'+' then cs else c ∷ cs

-- `str::parse::<u64>`
unfoldable pub read_u64 : Text → Option ℕ
unfolding without_plus all_digits parse_u64
read_u64 s = elim (without_plus s) [
  | [] ↦ none
  | c ∷ cs ↦ if all_digits (c ∷ cs) then parse_u64 0 (c ∷ cs) else none
]

pub data DurationError : Type 0 where
  empty expected_number zero too_large unknown_unit : DurationError

pub data Parsed : Type 0 where
  parsed : ℕ → Parsed
  bad : DurationError → Parsed

-- The number's text, and how many milliseconds its unit has.
split_unit : Text → Text × ℕ
unfolding strip_suffix
split_unit s = elim (strip_suffix (b'm' ∷ b's' ∷ []) s) [
  | some num ↦ (num, 1)
  | none ↦ elim (strip_suffix (b's' ∷ []) s) [
    | some num ↦ (num, 1000)
    | none ↦ elim (strip_suffix (b'm' ∷ []) s) [ some num ↦ (num, 60000) | none ↦ (s, 1) ]
  ]
]

number_of : Text → ℕ → Parsed
unfolding read_u64
number_of num unit = elim (read_u64 num) [
  | none ↦ bad expected_number
  | some n ↦ parsed (min (n * unit) u64_max)
]

with_unit : Text × ℕ → Parsed
unfolding number_of trim
with_unit (num, unit) = number_of (trim num) unit

trimmed : Text → Parsed
unfolding split_unit with_unit
trimmed [] = bad empty
trimmed (c ∷ cs) = with_unit (split_unit (c ∷ cs))

-- What both parsers do: the milliseconds, which stop at the greatest u64.
milliseconds : Text → Parsed
unfolding trimmed trim
milliseconds arg = trimmed (trim arg)

unfoldable pub parse_duration_ms : Text → Parsed
unfolding milliseconds
parse_duration_ms arg = milliseconds arg

unfoldable pub parse_timeout_ms : Text → Parsed
unfolding milliseconds
parse_timeout_ms arg = elim (milliseconds arg) [
  | bad e ↦ bad e
  | parsed ms ↦ if ms == 0 then bad zero else (if ltb u32_max ms then bad too_large else parsed ms)
]

unfoldable pub is_ascii_alphabetic : ℕ → Bool
is_ascii_alphabetic c = (leb b'A' c && leb c b'Z') || (leb b'a' c && leb c b'z')

-- The text before the first letter, and the rest.
unfoldable pub split_letters : Text → Text × Text
unfolding is_ascii_alphabetic
split_letters [] = ([], [])
split_letters (c ∷ cs) =
    let (before, rest) = split_letters cs in
    if is_ascii_alphabetic c then ([], c ∷ cs) else (c ∷ before, rest)

-- The milliseconds of a number with a unit; a release build multiplies without overflow checks.
unfoldable pub in_unit : ℕ → Text → Parsed
unfolding same
in_unit n unit =
    if same unit [] || same unit (b's' ∷ [])
    then parsed (n * 1000)
    else (if same unit (b'm' ∷ b's' ∷ [])
        then parsed n
        else (if same unit (b'm' ∷ [])
            then parsed ((n * 60) % 2 ^ 64 * 1000)
            else (if same unit (b'h' ∷ [])
                then parsed ((((n * 60) % 2 ^ 64) * 60) % 2 ^ 64 * 1000)
                else bad unknown_unit)))

unfoldable pub number_in : Text × Text → Parsed
unfolding read_u64 in_unit
number_in (num, unit) = elim (read_u64 num) [ none ↦ bad expected_number | some n ↦ in_unit n unit ]

unfoldable pub split_trimmed : Text → Parsed
unfolding number_in split_letters
split_trimmed [] = bad empty
split_trimmed (c ∷ cs) = number_in (split_letters (c ∷ cs))

-- `parse_duration` of the daemon's commands, in milliseconds.
unfoldable pub parse_duration : Text → Parsed
unfolding split_trimmed trim
parse_duration s = split_trimmed (trim s)
