-- ===== src/Tests/Decoding.antt =====
-- Runs of the decoders at concrete inputs.
use rtsp_rs.Prelude.{
  ◌≡◌, refl, ◌++◌, ◌∷◌, [], Bytes, bytes, some, bytes_eq, Result, ok, err, if◌then◌else◌,
}
use rtsp_rs.Header.Map.{Pairs, pair_maps}
use rtsp_rs.Codec.Decoder.Loop.Chunks.{Continues}
use rtsp_rs.Codec.Decoder.{complete, error}
use rtsp_rs.Codec.Decoder.Request.{Decoder, header_value_too_long, decode_header_value}
use rtsp_rs.Codec.Decoder.Request.Limits.{Config, default_config}
use rtsp_rs.Codec.Decoder.Request.Turns.{decode, with_config}
use rtsp_rs.Codec.Decoder.Request.Chunks.{decode-Continues}
use rtsp_rs.Codec.Decoder.Request.Boundary.{decode_header_value_at_limit}
use rtsp_rs.Reason
use rtsp_rs.Codec.Decoder.Response
use rtsp_rs.Codec.Decoder.Response.Turns
use rtsp_rs.Codec.Decoder.Response.Safety
use rtsp_rs.Codec.Decoder.Response.Whole.{decode_resumes}
use rtsp_rs.Codec.Decoder.Response.Boundary.{decode_reason_phrase_over_limit}

-- `URI::try_from` that takes `*` only.
abbrev pub star : Bytes → Result Bytes (Unit {0})
star value = if bytes_eq value (bytes "*") then ok value else err tt

abbrev TestDecoder : Type 0
TestDecoder = Decoder Pairs Bytes (Unit {0})

abbrev fresh : TestDecoder
fresh = with_config pair_maps default_config

abbrev first_part : Bytes
first_part = bytes "OPTIONS * RTSP/2.0\r\nCSe"

abbrev second_part : Bytes
second_part = bytes "q: 7\r\nContent-Length: 2\r\n\r\nhi"

decode-Continues_example :
    Continues
      (decode pair_maps star)
      first_part
      second_part
      (decode pair_maps star fresh first_part)
      (decode pair_maps star fresh (first_part ++ second_part))
decode-Continues_example = decode-Continues pair_maps star fresh first_part second_part

abbrev small_config : Config
small_config = record default_config { header_value_max_length = 3 }

decode_header_value_at_limit_example :
    (decode_header_value {UriError = Unit {0}} small_config
        (bytes "abc" ++ (b'\r' ∷ b'\n' ∷ b'X' ∷ bytes ": 1"))
      ≡ complete (bytes "abc"))
    × (decode_header_value {UriError = Unit {0}} small_config (bytes "abc" ++ (b'\r' ∷ []))
        ≡ error header_value_too_long)
decode_header_value_at_limit_example =
    decode_header_value_at_limit (Unit {0}) small_config (bytes "abc") b'X' (bytes ": 1") refl refl
      refl

abbrev new_response_decoder : Response.Decoder Pairs
new_response_decoder = Turns.with_config pair_maps Response.default_config

abbrev first_response_part : Bytes
first_response_part = bytes "RTSP/2.0 299 Fine\r\nCSe"

abbrev second_response_part : Bytes
second_response_part = bytes "q: 7\r\nContent-Length: 2\r\n\r\nhi"

decode_resumes_example :
    Continues
      (Turns.decode pair_maps)
      first_response_part
      second_response_part
      (Turns.decode pair_maps new_response_decoder first_response_part)
      (Turns.decode pair_maps new_response_decoder (first_response_part ++ second_response_part))
decode_resumes_example =
    decode_resumes pair_maps new_response_decoder first_response_part second_response_part

-- The limit on the reason phrase is one byte, and the reason phrase has two.
abbrev short_reasons : Response.Decoder Pairs
short_reasons =
    Turns.with_config pair_maps (record (Response.default_config) { reason_phrase_max_length = 1 })

decode_reason_phrase_over_limit_example :
    (Response.decode_reason_phrase short_reasons (bytes "OK" ++ (b'\r' ∷ b'\n' ∷ bytes "rest")) ≡ (
      complete tt,
      record short_reasons {
        state = Response.at_header;
        builder = record (short_reasons.builder) { custom_reason_phrase = some (bytes "OK") };
      },
      bytes "rest",
    ))
    × (Response.decode_reason_phrase short_reasons (bytes "OK" ++ (b'\r' ∷ []))
        ≡ (error Response.reason_phrase_too_long, short_reasons, bytes "OK" ++ (b'\r' ∷ [])))
unfolding Turns.with_config Reason.try_from
decode_reason_phrase_over_limit_example =
    decode_reason_phrase_over_limit short_reasons (bytes "OK") (bytes "rest") refl refl refl
