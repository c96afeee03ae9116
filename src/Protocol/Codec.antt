-- ===== src/Protocol/Codec.antt =====
-- The codec of the frames, from and to JSON values: crates/bsk-protocol/src/frame.rs, and the codec
-- that serde derives for the errors of error.rs.
pub mod RoundTrip
pub mod Unknown
pub mod Response
use browser_skill.Prelude.{Bool, Option, none, some, String, ite, text_discrete}
use browser_skill.Protocol.Method.{Method}
use browser_skill.Protocol.Json.{
  Value, null, string, array, object, Values, nil, item, Fields, end, field,
}
use browser_skill.Protocol.Frame.{
  ErrorCode, RpcError, ResponseBody, RequestFrame, ResponseFrame, EventFrame, EventKind, Frame,
  request, response, event,
}
use browser_skill.Protocol.Names.{
  of_name, method_name, methods, event_name, events, code_name, codes,
}

-- Why a value is no frame: a field comes twice, or is missing, or a value is of another type or
-- names no variant, or an array is of another length, or a response has both of `result` and
-- `error`, or none.
pub data Fault : Type 0 where
  duplicate_field missing_field : String → Fault
  wrong_type wrong_length ambiguous_response expected_result_or_error : Fault

pub data Decoded {ℓ} (A : Type ℓ) : Type ℓ where
  decoded : A → Decoded A
  fault : Fault → Decoded A

-- `#[serde(skip_serializing_if = "Option::is_none")]`
optional : String → Option Value → Fields → Fields
optional key none rest = rest
optional key (some v) rest = field key v rest

unfoldable pub encode_error : RpcError → Value
unfolding optional
encode_error e = object (
    field "code" (string (code_name e.code))
      (field "message" (string e.message) (optional "data" e.error_data end)))

encode_body : ResponseBody → Fields
unfolding encode_error
encode_body (ResponseBody.ok v) = field "result" v end
encode_body (ResponseBody.err e) = field "error" (encode_error e) end

unfoldable pub encode_response : ResponseFrame → Fields
unfolding encode_body
encode_response f = field "id" (string f.id) (encode_body f.body)

unfoldable pub encode : Frame → Value
unfolding optional encode_response
encode (request f) = object (
    field "id" (string f.id)
      (field "method" (string (method_name f.method)) (optional "params" f.params end)))
encode (response f) = object (encode_response f)
encode (event f) =
    object (field "event" (string (event_name f.event)) (field "payload" f.payload end))

then {ℓ ℓ'} : {A : Type ℓ} → {B : Type ℓ'} → Decoded A → (A → Decoded B) → Decoded B
then (decoded a) k = k a
then (fault x) k = fault x

or_wrong_type {ℓ} : {A : Type ℓ} → Option A → Decoded A
or_wrong_type none = fault wrong_type
or_wrong_type (some a) = decoded a

required {ℓ} : {A : Type ℓ} → String → Option A → Decoded A
required key none = fault (missing_field key)
required key (some a) = decoded a

as_string : Value → Decoded String
as_string (string s) = decoded s
as_string _ = fault wrong_type

-- A variant without data is its name, or an object of one field with its name and null.
variant {ℓ} : {A : Type ℓ} → (String → Option A) → Value → Decoded A
unfolding or_wrong_type
variant of (string s) = or_wrong_type (of s)
variant of (object (field s null end)) = or_wrong_type (of s)
variant of _ = fault wrong_type

as_method : Value → Decoded Method
unfolding variant of_name method_name
as_method v = variant (of_name method_name methods) v

as_event : Value → Decoded EventKind
unfolding variant of_name event_name
as_event v = variant (of_name event_name events) v

as_code : Value → Decoded ErrorCode
unfolding variant of_name code_name
as_code v = variant (of_name code_name codes) v

-- An `Option` is none for null.
unfoldable pub as_option : Value → Option Value
as_option null = none
as_option (Value.bool b) = some (Value.bool b)
as_option (Value.number n) = some (Value.number n)
as_option (string s) = some (string s)
as_option (array l) = some (array l)
as_option (object fs) = some (object fs)

-- A field is read only if it was not seen yet.
put {ℓ} : {A : Type ℓ} → String → Option A → Decoded A → Decoded (Option A)
put key (some old) new = fault (duplicate_field key)
put key none (decoded a) = decoded (some a)
put key none (fault x) = fault x

-- The fields of an `RpcError`, as far as they have been read.
record ErrorParts : Type 0 where
  code : Option ErrorCode
  message : Option String
  error_data : Option (Option Value)

read_error : Fields → ErrorParts → Decoded ErrorParts
unfolding put then as_code as_string as_option
read_error end p = decoded p
read_error (field key v rest) p =
    ite (text_discrete key "code")
      (then (put key p.code (as_code v)) (λ x. read_error rest (record p { code = x })))
      (ite (text_discrete key "message")
        (then (put key p.message (as_string v)) (λ x. read_error rest (record p { message = x })))
        (ite (text_discrete key "data")
          (then (put key p.error_data (decoded (as_option v)))
            (λ x. read_error rest (record p { error_data = x })))
          (read_error rest p)))

build_error : ErrorParts → Decoded RpcError
unfolding then required
build_error p = then (required "code" p.code) (λ c. then (required "message" p.message) (λ m.
    decoded (record {
      code = c;
      message = m;
      error_data = elim p.error_data [ none ↦ none | some x ↦ x ];
    })))

-- The elements of an array are read in the order of the fields.
error_of_array : Values → Decoded RpcError
unfolding then as_code as_string as_option
error_of_array nil = fault wrong_length
error_of_array (item c rest) = then (as_code c) (λ code. elim rest [
  | nil ↦ fault wrong_length
  | item m more ↦ then (as_string m) (λ message. elim more [
    | nil ↦ decoded (record { code = code; message = message; error_data = none })
    | item x others ↦ elim others [
      | nil ↦ decoded (record { code = code; message = message; error_data = as_option x })
      | item y ys ↦ fault wrong_length
    ]
  ])
])

unfoldable pub as_error : Value → Decoded RpcError
unfolding read_error build_error error_of_array then
as_error (object fs) =
    then (read_error fs (record { code = none; message = none; error_data = none })) build_error
as_error (array l) = error_of_array l
as_error _ = fault wrong_type

-- The locals of `visit_map`.
pub record Parts : Type 0 where
  pub id : Option String
  pub method : Option Method
  pub params : Option Value
  pub result : Option Value
  pub error : Option RpcError
  pub kind : Option EventKind
  pub payload : Option Value

abbrev pub no_parts : Parts
no_parts = record {
  id = none;
  method = none;
  params = none;
  result = none;
  error = none;
  kind = none;
  payload = none;
}

-- One turn of the loop of `visit_map`.
visit : String → Value → Parts → Decoded Parts
unfolding put then as_string as_method as_error as_event
visit key v p =
    ite (text_discrete key "id")
      (then (put key p.id (as_string v)) (λ x. decoded (record p { id = x })))
      (ite (text_discrete key "method")
        (then (put key p.method (as_method v)) (λ x. decoded (record p { method = x })))
        (ite (text_discrete key "params")
          (then (put key p.params (decoded v)) (λ x. decoded (record p { params = x })))
          (ite (text_discrete key "result")
            (then (put key p.result (decoded v)) (λ x. decoded (record p { result = x })))
            (ite (text_discrete key "error")
              (then (put key p.error (as_error v)) (λ x. decoded (record p { error = x })))
              (ite (text_discrete key "event")
                (then (put key p.kind (as_event v)) (λ x. decoded (record p { kind = x })))
                (ite (text_discrete key "payload")
                  (then (put key p.payload (decoded v)) (λ x. decoded (record p { payload = x })))
                  (decoded p)))))))

unfoldable pub visit_all : Fields → Parts → Decoded Parts
unfolding visit then
visit_all end p = decoded p
visit_all (field key v rest) p = then (visit key v p) (visit_all rest)

-- What the fields make up: an event, else a request, else a response.
build : Parts → Decoded Frame
unfolding then required
build p = elim p.kind [
  | some k ↦
      decoded
        (event (record { event = k; payload = elim p.payload [ none ↦ object end | some v ↦ v ] }))
  | none ↦ elim p.method [
    | some m ↦
        then (required "id" p.id)
          (λ i. decoded (request (record { id = i; method = m; params = p.params })))
    | none ↦ then (required "id" p.id) (λ i. elim p.result [
      | some v ↦ elim p.error [
        | none ↦ decoded (response (record { id = i; body = ResponseBody.ok v }))
        | some e ↦ fault ambiguous_response
      ]
      | none ↦ elim p.error [
        | some e ↦ decoded (response (record { id = i; body = ResponseBody.err e }))
        | none ↦ fault expected_result_or_error
      ]
    ])
  ]
]

unfoldable pub decode : Value → Decoded Frame
unfolding visit_all build then
decode (object fs) = then (visit_all fs no_parts) build
decode _ = fault wrong_type
