-- ===== src/Protocol/Codec/Unknown.antt =====
-- The fields that the reader of a frame passes over.
use browser_skill.Prelude.{
  ◌≡◌, refl, inl, inr, ◌⊎◌, Bool, true, false, ◌||◌, String, arith, ite, text_discrete,
}
use browser_skill.Protocol.Json.{Value, object, Fields, end, field}
use browser_skill.Protocol.Codec.{
  Decoded, decoded, fault, Fault, Parts, no_parts, visit, visit_all, decode,
}

is : String → String → Bool
is key name = ite (text_discrete key name) true false

-- The fields of a frame.
unfoldable pub is_known : String → Bool
unfolding is
is_known key =
    is key "id"
    || is key "method"
    || is key "params"
    || is key "result"
    || is key "error"
    || is key "event"
    || is key "payload"

-- The fields of one object and then another.
pub followed_by : Fields → Fields → Fields
followed_by end rest = rest
followed_by (field key v more) rest = field key v (followed_by more rest)

visit-unknown :
    (key : String) (v : Value) (p : Parts) → is_known key ≡ false → visit key v p ≡ decoded p
unfolding visit is_known
visit-unknown key v p h = ground arith

Decoded-cases {ℓ} :
    {A : Type ℓ} → (x : Decoded A) → ((a : A) × (x ≡ decoded a)) ⊎ ((e : Fault) × (x ≡ fault e))
Decoded-cases (decoded a) = inl (a, refl)
Decoded-cases (fault e) = inr (e, refl)

visit_all-unknown :
    (key : String) (v : Value) (before rest : Fields) (p : Parts)
    → is_known key ≡ false
    → visit_all (followed_by before (field key v rest)) p ≡ visit_all (followed_by before rest) p
unfolding visit_all followed_by
visit_all-unknown key v end rest p h = rw (visit-unknown key v p h) refl
visit_all-unknown key v (field k w more) rest p h = elim (Decoded-cases (visit k w p)) [
  | inl (p', e) ↦ rw e (visit_all-unknown key v more rest p' h)
  | inr (x, e) ↦ rw e refl
]

-- An object field that no frame has changes nothing, wherever it stands and whatever it holds.
pub decode_unknown :
    (key : String) (v : Value) (before rest : Fields)
    → is_known key ≡ false
    → decode (object (followed_by before (field key v rest)))
      ≡ decode (object (followed_by before rest))
unfolding decode
decode_unknown key v before rest h = rw (visit_all-unknown key v before rest no_parts h) refl
