-- ===== src/Protocol/Codec/RoundTrip.antt =====
-- Frames that are written and read back.
use browser_skill.Prelude.{◌≡◌, refl, ap, ◌∙◌, ◌≢◌, Option, none, some, String, text_discrete}
use browser_skill.Protocol.Method.{Method}
use browser_skill.Protocol.Json.{Value, null, string, object}
use browser_skill.Protocol.Frame.{
  ErrorCode, RpcError, ResponseBody, EventKind, Frame, request, response, event,
}
use browser_skill.Protocol.Names.{method_name, event_name, code_name}
use browser_skill.Protocol.Names.Unique.{of_name-method_name, of_name-event_name, of_name-code_name}
use browser_skill.Protocol.Codec.{
  decoded, encode, encode_error, as_method, as_event, as_code, as_error, as_option, variant,
  or_wrong_type, decode,
}

as_method-method_name : (m : Method) → as_method (string (method_name m)) ≡ decoded m
unfolding as_method or_wrong_type variant
as_method-method_name m = rw (of_name-method_name m) refl

as_event-event_name : (k : EventKind) → as_event (string (event_name k)) ≡ decoded k
unfolding as_event
as_event-event_name k = rw (of_name-event_name k) refl

as_code-code_name : (c : ErrorCode) → as_code (string (code_name c)) ≡ decoded c
unfolding as_code
as_code-code_name c = rw (of_name-code_name c) refl

-- Data that is null is read as no data.
abbrev pub read_data : Option Value → Option Value
read_data none = none
read_data (some null) = none
read_data (some v) = some v

as_option-read_data : (v : Value) → as_option v ≡ read_data (some v)
unfolding as_option
as_option-read_data null = refl
as_option-read_data (Value.bool b) = refl
as_option-read_data (Value.number n) = refl
as_option-read_data (string s) = refl
as_option-read_data (Value.array l) = refl
as_option-read_data (object fs) = refl

read_data-same : (x : Option Value) → x ≢ some null → read_data x ≡ x
read_data-same none h = refl
read_data-same (some null) h = absurd (h refl)
read_data-same (some (Value.bool b)) h = refl
read_data-same (some (Value.number n)) h = refl
read_data-same (some (string s)) h = refl
read_data-same (some (Value.array l)) h = refl
read_data-same (some (object fs)) h = refl

-- An error as it is read back.
abbrev pub read_back_error : RpcError → RpcError
read_back_error e = record e { error_data = read_data e.error_data }

error-parts :
    (c : ErrorCode) (m : String) (x : Option Value)
    → let e : RpcError = record { code = c; message = m; error_data = x } in
      as_error (encode_error e) ≡ decoded (read_back_error e)
unfolding as_error encode_error text_discrete
error-parts c m none = rw (as_code-code_name c) refl
error-parts c m (some v) = rw (as_code-code_name c, as_option-read_data v) refl

pub as_error-encode_error : (e : RpcError) → as_error (encode_error e) ≡ decoded (read_back_error e)
as_error-encode_error e = error-parts e.code e.message e.error_data

-- A response as it is read back.
abbrev pub read_back_body : ResponseBody → ResponseBody
read_back_body (ResponseBody.ok v) = ResponseBody.ok v
read_back_body (ResponseBody.err e) = ResponseBody.err (read_back_error e)

-- A frame as it is read back: the same, but that an error has no data where its data is null.
abbrev pub read_back : Frame → Frame
read_back (request f) = request f
read_back (response f) = response (record f { body = read_back_body f.body })
read_back (event f) = event f

-- A frame that is written and read back is the same frame, but that an error with the data null is
-- read as the error without data.
pub decode-encode : (f : Frame) → decode (encode f) ≡ decoded (read_back f)
unfolding decode encode text_discrete
decode-encode (request f) = with_params f.id f.method f.params
  where
    with_params :
        (id : String) (m : Method) (p : Option Value)
        → let f : Frame = request (record { id = id; method = m; params = p }) in
          decode (encode f) ≡ decoded f
    with_params id m none = rw (as_method-method_name m) refl
    with_params id m (some v) = rw (as_method-method_name m) refl
decode-encode (event f) = rw (as_event-event_name f.event) refl
decode-encode (response f) = with_body f.id f.body
  where
    with_body :
        (id : String) (b : ResponseBody)
        → let f : Frame = response (record { id = id; body = b }) in
          decode (encode f) ≡ decoded (read_back f)
    with_body id (ResponseBody.ok v) = refl
    with_body id (ResponseBody.err e) = rw (as_error-encode_error e) refl

-- An error without null data is read back as it is.
pub decode-encode-error :
    (id : String) (e : RpcError)
    → e.error_data ≢ some null
    → let f : Frame = response (record { id = id; body = ResponseBody.err e }) in
      decode (encode f) ≡ decoded f
decode-encode-error id e h =
    decode-encode (response (record { id = id; body = ResponseBody.err e }))
    ∙ ap
        (λ x.
          decoded
            (response (record { id = id; body = ResponseBody.err (record e { error_data = x }) })))
        (read_data-same e.error_data h)
