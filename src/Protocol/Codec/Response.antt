-- ===== src/Protocol/Codec/Response.antt =====
-- The codec of `ResponseFrame` by itself, whose reader goes by way of `Flat`:
-- crates/bsk-protocol/src/frame.rs.
use browser_skill.Prelude.{◌≡◌, refl, Option, none, some, String, ite, text_discrete}
use browser_skill.Protocol.Json.{Value, null, string, object, Fields, end, field}
use browser_skill.Protocol.Frame.{RpcError, ResponseBody, ResponseFrame, response}
use browser_skill.Protocol.Codec.{
  Decoded, decoded, fault, ambiguous_response, put, then, required, as_string, as_option, as_error,
  encode_response, encode, decode,
}
use browser_skill.Protocol.Codec.RoundTrip.{
  as_error-encode_error, read_back, read_back_body, decode-encode,
}

-- The locals of the reader that serde derives for `Flat`.
record Flat : Type 0 where
  id : Option String
  result : Option (Option Value)
  error : Option (Option RpcError)

-- An `Option<RpcError>` is none for null.
as_error_option : Value → Decoded (Option RpcError)
unfolding then as_error
as_error_option null = decoded none
as_error_option v = then (as_error v) (λ e. decoded (some e))

read_flat : Fields → Flat → Decoded Flat
unfolding put then as_string as_option as_error_option
read_flat end p = decoded p
read_flat (field key v rest) p =
    ite (text_discrete key "id")
      (then (put key p.id (as_string v)) (λ x. read_flat rest (record p { id = x })))
      (ite (text_discrete key "result")
        (then (put key p.result (decoded (as_option v)))
          (λ x. read_flat rest (record p { result = x })))
        (ite (text_discrete key "error")
          (then (put key p.error (as_error_option v))
            (λ x. read_flat rest (record p { error = x })))
          (read_flat rest p)))

-- A missing field of an `Option` type is none.
join {ℓ} : {A : Type ℓ} → Option (Option A) → Option A
join none = none
join (some x) = x

build_response : Flat → Decoded ResponseFrame
unfolding then required join
build_response p = then (required "id" p.id) (λ i. elim (join p.result) [
  | some v ↦ elim (join p.error) [
    | none ↦ decoded (record { id = i; body = ResponseBody.ok v })
    | some e ↦ fault ambiguous_response
  ]
  | none ↦ elim (join p.error) [
    | some e ↦ decoded (record { id = i; body = ResponseBody.err e })
    | none ↦ fault ambiguous_response
  ]
])

-- For fields; the derived reader of `Flat` takes an array of three as well.
unfoldable pub decode_response : Fields → Decoded ResponseFrame
unfolding read_flat build_response then
decode_response fs =
    then (read_flat fs (record { id = none; result = none; error = none })) build_response

-- What the reader of a response by itself makes of one that was written: as `Frame` reads it, but a
-- result that is null is taken for a missing one.
abbrev pub read_alone : ResponseFrame → Decoded ResponseFrame
read_alone f = elim f.body [
  | ResponseBody.ok null ↦ fault ambiguous_response
  | b ↦ decoded (record f { body = read_back_body b })
]

-- A response that is written and read back by itself is what `Frame` reads (the same response, but
-- that an error with the data null is read as the error without data), unless its result is null:
-- `Frame` reads that as it is, but here it is refused as ambiguous.
pub decode_response-encode_response :
    (f : ResponseFrame)
    → (decode (encode (response f)) ≡ decoded (read_back (response f)))
      × (decode_response (encode_response f) ≡ read_alone f)
unfolding decode_response encode_response text_discrete
decode_response-encode_response f = (decode-encode (response f), with_body f.id f.body)
  where
    with_body :
        (id : String) (b : ResponseBody)
        → let f : ResponseFrame = record { id = id; body = b } in
          decode_response (encode_response f) ≡ read_alone f
    with_body id (ResponseBody.ok null) = refl
    with_body id (ResponseBody.ok (Value.bool b)) = refl
    with_body id (ResponseBody.ok (Value.number n)) = refl
    with_body id (ResponseBody.ok (string s)) = refl
    with_body id (ResponseBody.ok (Value.array l)) = refl
    with_body id (ResponseBody.ok (object fs)) = refl
    with_body id (ResponseBody.err e) = rw (as_error-encode_error e) refl
