-- ===== src/Protocol/Handshake.antt =====
-- Protocol version negotiation: crates/bsk-protocol/src/system.rs. A version string is the list of
-- its bytes.
pub mod Symmetry
pub mod Decimal
use browser_skill.Prelude.{
  ℕ, zero, suc, ◌+◌, ◌-◌, ◌*◌, ◌^◌, ◌≤◌, ◌<◌, ◌≡◌, refl, sym, ◌↔◌, ◌⊎◌, inl, inr, ◌≢◌, ite, Bool,
  true, false, ◌&&◌, ◌||◌, not, Option, none, some, List, [], ◌∷◌, arith, ltb, leb, ◌==◌,
  if◌then◌else◌, compare, Ordering, ℕ_discrete,
}
use browser_skill.Digits.{all_digits, is_empty, parse_u64}

abbrev pub max_protocol_major : ℕ
max_protocol_major = 2 ^ 53 - 1

-- `str::split('.')`: the first segment, and the segments after it.
pub split_dot : List ℕ → List ℕ × List (List ℕ)
split_dot [] = ([], [])
split_dot (b ∷ bs) =
    let (seg, rest) = split_dot bs in if b == b'.' then ([], seg ∷ rest) else (b ∷ seg, rest)

capped : Option ℕ → Option ℕ
capped none = none
capped (some n) = if ltb max_protocol_major n then none else some n

-- The digits of one segment, as a number of at most `max_protocol_major`.
parse_segment : List ℕ → Option ℕ
unfolding is_empty capped
parse_segment seg = if is_empty seg || not (all_digits seg) then none else capped (parse_u64 0 seg)

pub parse_major : List ℕ → Option ℕ
unfolding parse_segment
parse_major value = parse_segment (split_dot value).0

pub record ProtocolParts : Type 0 where
  pub major : ℕ
  pub minor : ℕ

parse_minor : List (List ℕ) → Option ℕ
unfolding is_empty parse_segment
parse_minor [] = some 0
parse_minor (seg ∷ rest) = if is_empty seg then some 0 else parse_segment seg

with_minor : ℕ → Option ℕ → Option ProtocolParts
with_minor m none = none
with_minor m (some n) = some (record { major = m; minor = n })

with_major : Option ℕ → Option ℕ → Option ProtocolParts
unfolding with_minor
with_major none minor = none
with_major (some m) minor = with_minor m minor

pub parse_protocol_parts : List ℕ → Option ProtocolParts
unfolding with_major parse_minor
parse_protocol_parts value = with_major (parse_major value) (parse_minor (split_dot value).1)

abbrev then_with : Ordering → Ordering → Ordering
then_with Ordering.eq o = o
then_with o _ = o

compare_parts : Option ProtocolParts → Option ProtocolParts → Option Ordering
compare_parts none b = none
compare_parts (some a) none = none
compare_parts (some a) (some b) =
    some (then_with (compare a.major b.major) (compare a.minor b.minor))

pub compare_protocol : List ℕ → List ℕ → Option Ordering
unfolding compare_parts
compare_protocol a b = compare_parts (parse_protocol_parts a) (parse_protocol_parts b)

pub bytes_eq : List ℕ → List ℕ → Bool
bytes_eq [] [] = true
bytes_eq (x ∷ xs) (y ∷ ys) = x == y && bytes_eq xs ys
bytes_eq _ _ = false

pub data Reason : Type 0 where
  major_mismatch : List ℕ → List ℕ → Reason
  peer_below_floor : List ℕ → List ℕ → Reason
  peer_unparseable : List ℕ → Reason
  local_below_floor : List ℕ → List ℕ → Reason
  local_unparseable : List ℕ → Reason
  peer_floor_unparseable : List ℕ → Reason

pub data HandshakeCompat : Type 0 where
  ok : HandshakeCompat
  skew : HandshakeCompat
  reject : Reason → HandshakeCompat

same_major : Option ℕ → Option ℕ → Bool
same_major (some a) (some b) = a == b
same_major _ _ = false

-- The last test: equal strings are `ok`, drift of the minor version is `skew`.
drift : List ℕ → List ℕ → HandshakeCompat
drift peer our = if bytes_eq peer our then ok else skew

-- The peer's floor against our version; a legacy peer sends none.
peer_floor : List ℕ → Option (List ℕ) → List ℕ → HandshakeCompat
unfolding drift
peer_floor peer none our = drift peer our
peer_floor peer (some floor) our = elim (compare_protocol our floor) [
  | some Ordering.lt ↦ reject (local_below_floor our floor)
  | some Ordering.eq ↦ drift peer our
  | some Ordering.gt ↦ drift peer our
  | none ↦ elim (parse_protocol_parts our) [
    | none ↦ reject (local_unparseable our)
    | some parts ↦ reject (peer_floor_unparseable floor)
  ]
]

-- Our floor against the peer's version.
our_floor : List ℕ → Option (List ℕ) → List ℕ → List ℕ → HandshakeCompat
unfolding peer_floor
our_floor peer peer_min our our_min = elim (compare_protocol peer our_min) [
  | some Ordering.lt ↦ reject (peer_below_floor peer our_min)
  | some Ordering.eq ↦ peer_floor peer peer_min our
  | some Ordering.gt ↦ peer_floor peer peer_min our
  | none ↦ reject (peer_unparseable peer)
]

unfoldable pub evaluate_handshake_compat :
    List ℕ → Option (List ℕ) → List ℕ → List ℕ → HandshakeCompat
unfolding our_floor same_major
evaluate_handshake_compat peer peer_min our our_min =
    if same_major (parse_major peer) (parse_major our)
    then our_floor peer peer_min our our_min
    else reject (major_mismatch peer our)
