-- ===== src/Examples/Wire.antt =====
-- Runs of the codec of the frames.
use browser_skill.Prelude.{◌≡◌, none, some}
use browser_skill.Protocol.Json.{null}
use browser_skill.Protocol.Frame.{ErrorCode, ResponseBody, ResponseFrame, Frame, response}
use browser_skill.Protocol.Codec.{
  decoded, fault, ambiguous_response, encode, encode_response, decode,
}
use browser_skill.Protocol.Codec.Response.{decode_response, decode_response-encode_response}
use browser_skill.Protocol.Codec.RoundTrip.{decode-encode}

-- An error with the data null.
abbrev denied : Frame
denied = response (record {
  id = "r1";
  body =
      ResponseBody.err
        (record { code = ErrorCode.permission_denied; message = "no"; error_data = some null });
})

decode-encode_example :
    decode (encode denied)
    ≡ decoded (
        response (record {
          id = "r1";
          body =
              ResponseBody.err
                (record { code = ErrorCode.permission_denied; message = "no"; error_data = none });
        }))
decode-encode_example = decode-encode denied

abbrev nothing : ResponseFrame
nothing = record { id = "r1"; body = ResponseBody.ok null }

decode_response-encode_response_example :
    (decode (encode (response nothing)) ≡ decoded (response nothing))
    × (decode_response (encode_response nothing) ≡ fault ambiguous_response)
decode_response-encode_response_example = decode_response-encode_response nothing
