-- ===== src/Digits.antt =====
-- Texts of decimal digits, as lists of characters, and the numbers that they stand for.
use browser_skill.Prelude.{
  refl, ◌++◌, ◌/◌, ◌%◌, ℕ, zero, suc, ◌+◌, ◌-◌, ◌*◌, ◌^◌, ◌≤◌, ◌≡◌, Bool-cases, inl, inr,
  length-append, Bool, true, false, ◌&&◌, Option, none, some, List, [], ◌∷◌, arith, length, leb,
  if◌then◌else◌,
}
use native.Mathlib.Nat.{pow-suc}
use native.Mathlib.Numerals.{add-one}

abbrev pub u64_max : ℕ
u64_max = 2 ^ 64 - 1

abbrev pub u32_max : ℕ
u32_max = 2 ^ 32 - 1

unfoldable pub is_ascii_digit : ℕ → Bool
is_ascii_digit b = leb b'0' b && leb b b'9'

unfoldable pub all_digits : List ℕ → Bool
unfolding is_ascii_digit
all_digits [] = true
all_digits (b ∷ bs) = is_ascii_digit b && all_digits bs

unfoldable pub is_empty : List ℕ → Bool
is_empty [] = true
is_empty (b ∷ bs) = false

-- `str::parse::<u64>` on a run of digits: the value, or `none` on overflow.
unfoldable pub parse_u64 : ℕ → List ℕ → Option ℕ
parse_u64 acc [] = some acc
parse_u64 acc (b ∷ bs) =
    let next = acc * 10 + (b - b'0') in
    let rest = parse_u64 next bs in if leb next u64_max then rest else none

-- The number that a run of decimal digits stands for.
unfoldable pub decimal : List ℕ → ℕ
decimal [] = 0
decimal (b ∷ bs) = (b - b'0') * 10 ^ length bs + decimal bs

power_pos : (n : ℕ) → 1 ≤ 10 ^ n
power_pos zero = omega arith
power_pos (suc n) = rw pow-suc (omega (arith, power_pos n))

le-mul_power : (a n : ℕ) → a ≤ a * 10 ^ n
le-mul_power a n = grind (arith, power_pos n)

shift_digit :
    (acc d n rest : ℕ) → acc * 10 ^ suc n + (d * 10 ^ n + rest) ≡ (acc * 10 + d) * 10 ^ n + rest
shift_digit acc d n rest = rw pow-suc (omega arith)

-- Reading on from `acc` gives the whole number, unless that overflows 64 bits.
parse_u64-decimal :
    (acc : ℕ) (bs : List ℕ)
    → acc ≤ u64_max
    → parse_u64 acc bs ≡ (
        if leb (acc * 10 ^ length bs + decimal bs) u64_max
        then some (acc * 10 ^ length bs + decimal bs)
        else none)
unfolding parse_u64 decimal
parse_u64-decimal acc [] h = ground arith
parse_u64-decimal acc (b ∷ bs) h = rw (shift_digit acc (b - b'0') (length bs) (decimal bs)) (
    ground (
      arith,
      parse_u64-decimal (acc * 10 + (b - b'0')) bs,
      le-mul_power (acc * 10 + (b - b'0')) (length bs),
    ))

pub parse_u64_at_zero :
    (bs : List ℕ) → parse_u64 0 bs ≡ (if leb (decimal bs) u64_max then some (decimal bs) else none)
parse_u64_at_zero bs = ground (arith, parse_u64-decimal 0 bs)

-- A number as `Display` writes it: its last digit, after those of a tenth of it. Fuel that is at
-- least the number is enough.
show_from : ℕ → ℕ → List ℕ
show_from zero n = (b'0' + n % 10) ∷ []
show_from (suc fuel) n =
    let before = show_from fuel (n / 10) in
    if leb n 9 then (b'0' + n) ∷ [] else before ++ ((b'0' + n % 10) ∷ [])

unfoldable pub show_decimal : ℕ → List ℕ
unfolding show_from
show_decimal n = show_from n n

decimal-snoc : (bs : List ℕ) (d : ℕ) → decimal (bs ++ (d ∷ [])) ≡ decimal bs * 10 + (d - b'0')
unfolding decimal
decimal-snoc [] d = omega arith
decimal-snoc (b ∷ bs) d =
    rw (length-append bs (d ∷ []))
      (rw (decimal-snoc bs d) (rw (pow-succ (length bs)) (grind arith)))
  where
    pow-succ : (n : ℕ) → 10 ^ (n + 1) ≡ 10 ^ n * 10
    pow-succ n = rw add-one (pow-suc 10 n)

all_digits-snoc :
    (bs : List ℕ) (d : ℕ)
    → all_digits bs ≡ true
    → is_ascii_digit d ≡ true
    → all_digits (bs ++ (d ∷ [])) ≡ true
unfolding all_digits is_ascii_digit
all_digits-snoc [] d h k = ground arith
all_digits-snoc (b ∷ bs) d h k = ground (arith, all_digits-snoc bs d)

show_from-decimal : (fuel n : ℕ) → n ≤ fuel → decimal (show_from fuel n) ≡ n
unfolding show_from decimal
show_from-decimal zero n h = omega arith
show_from-decimal (suc fuel) n h = elim (Bool-cases (leb n 9)) [
  | inl small ↦ rw small (ground arith)
  | inr large ↦ rw large (
      ground (
        arith,
        decimal-snoc (show_from fuel (n / 10)) (b'0' + n % 10),
        show_from-decimal fuel (n / 10),
      ))
]

show_from-digits : (fuel n : ℕ) → all_digits (show_from fuel n) ≡ true
unfolding show_from all_digits is_ascii_digit
show_from-digits zero n = ground arith
show_from-digits (suc fuel) n = elim (Bool-cases (leb n 9)) [
  | inl small ↦ rw small (ground arith)
  | inr large ↦ rw large (
      all_digits-snoc (show_from fuel (n / 10)) (b'0' + n % 10) (show_from-digits fuel (n / 10))
        (ground arith))
]

-- What `Display` writes is a run of digits that stands for the number.
pub show_decimal-decimal : (n : ℕ) → decimal (show_decimal n) ≡ n
unfolding show_decimal
show_decimal-decimal n = show_from-decimal n n (omega arith)

pub show_decimal-digits : (n : ℕ) → all_digits (show_decimal n) ≡ true
unfolding show_decimal
show_decimal-digits n = show_from-digits n n

show_from-cons : (fuel n : ℕ) → (d : ℕ) × (ds : List ℕ) × (show_from fuel n ≡ d ∷ ds)
unfolding show_from
show_from-cons zero n = (b'0' + n % 10, [], refl)
show_from-cons (suc fuel) n = elim (Bool-cases (leb n 9)) [
  | inl small ↦ (b'0' + n, [], rw small refl)
  | inr large ↦
      let (d, ds, e) = show_from-cons fuel (n / 10) in
      (d, ds ++ ((b'0' + n % 10) ∷ []), rw large (rw e refl))
]

pub show_decimal-cons : (n : ℕ) → (d : ℕ) × (ds : List ℕ) × (show_decimal n ≡ d ∷ ds)
unfolding show_decimal
show_decimal-cons n = show_from-cons n n
