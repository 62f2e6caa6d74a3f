-- ===== src/Codec/Codec/Idle.antt =====
-- rtsp-2/src/protocol/codec/mod.rs: a codec between two messages, and the bytes of the next message.
use rtsp_rs.Prelude.{
  ℕ, ◌+◌, ◌≤◌, ◌≡◌, refl, ap, sym, ◌∙◌, true, false, [], ◌∷◌, ◌++◌, Bytes, bytes, length,
  length-append, drop, ltb, starts_with, Option, some, Result, ok, arith,
}
use rtsp_rs.Header.Map.{HeaderMaps}
use rtsp_rs.Method
use rtsp_rs.Method.Cases.{is_token-as_str}
use rtsp_rs.Request.{Request}
use rtsp_rs.Response.{Response}
use rtsp_rs.Version
use rtsp_rs.Codec.Codec.{
  Codec, Message, request, response, attempted, CodecEvent, decoding_started, decoding_ended,
  skip_line_breaks, told, send_codec_event, decoded_request, decode_request, decoded_response,
  decode_response, decode_start, decode, encode_message,
}
use rtsp_rs.Codec.Decoder.Request.Limits as RequestLimits
use rtsp_rs.Codec.Decoder.Response as ResponseDecoder
use rtsp_rs.Codec.Encoder.{encode_request, encode_response}
use rtsp_rs.Codec.Roundtrip.Headers.{received}
use rtsp_rs.Codec.Roundtrip.Printed.{drop-length}
use rtsp_rs.Codec.Roundtrip.Request as SendableRequest
use rtsp_rs.Codec.Roundtrip.Request.FirstLine as RequestTurns
use rtsp_rs.Codec.Roundtrip.Request.Whole as RequestWhole
use rtsp_rs.Codec.Roundtrip.Request.Whole.{decode-encode_request}
use rtsp_rs.Codec.Roundtrip.Response as SendableResponse
use rtsp_rs.Codec.Roundtrip.Response.FirstLine as ResponseTurns
use rtsp_rs.Codec.Roundtrip.Response.Whole as ResponseWhole
use rtsp_rs.Codec.Roundtrip.Response.Whole.{decode-encode_response}
use rtsp_rs.Codec.Roundtrip.Tokens.{is_token-starts_with, is_token-starts_with_rtsp}

pub skip_line_breaks-none :
    (buffer : Bytes) → starts_with (bytes "\r\n") buffer ≡ false → skip_line_breaks buffer ≡ buffer
unfolding skip_line_breaks starts_with
skip_line_breaks-none [] h = refl
skip_line_breaks-none (a ∷ []) h = refl
skip_line_breaks-none (a ∷ b ∷ rest) h = ground arith

module _ {Map Uri UriError Sink : Type 0} (IoError : Type 0) (maps : HeaderMaps Map)
    (uri_try_from : Bytes → Result Uri UriError) (uri_to_string : Uri → Bytes)
    (unbounded_send : CodecEvent → Sink → Option Sink) (request_config : RequestLimits.Config)
    (response_config : ResponseDecoder.Config) where
  -- A codec between two messages; its decoders keep the length of the last body.
  abbrev pub idle : ℕ → ℕ → Option Sink → Codec Map Uri UriError Sink
  idle n m tx_event = record {
    request_decoder = RequestTurns.waiting maps request_config n;
    response_decoder = ResponseTurns.waiting maps response_config m;
    tx_event = tx_event;
  }

  abbrev pub IsSendable : Message Map Uri → Type 0
  IsSendable (request m) =
      SendableRequest.IsSendable maps uri_try_from uri_to_string request_config m
  IsSendable (response m) = SendableResponse.IsSendable maps response_config m

  -- The message that is received: the headers are those that were written.
  abbrev pub arrived : Message Map Uri → Message Map Uri
  arrived (request m) = request (record m { headers = received maps m.headers m.body })
  arrived (response m) = response (record m { headers = received maps m.headers m.body })

  -- The lengths that the decoders keep behind the message.
  abbrev pub last_request : Message Map Uri → ℕ → ℕ
  last_request (request r) n = length r.body
  last_request (response r) n = n

  abbrev pub last_response : Message Map Uri → ℕ → ℕ
  last_response (request r) m = m
  last_response (response r) m = length r.body

  abbrev pub events : Option Sink → Option Sink
  events tx_event =
      told IoError maps uri_try_from uri_to_string unbounded_send decoding_ended
        (told IoError maps uri_try_from uri_to_string unbounded_send decoding_started tx_event)

  module _ (n m : ℕ) (tx_event : Option Sink) (later : Bytes) where
    -- A call that meets the first line of a request at the start of the buffer.
    request_call :
        (name rest : Bytes)
        → starts_with (bytes "\r\n") (name ++ (b' ' ∷ rest)) ≡ false
        → starts_with (bytes "RTSP/") (name ++ (b' ' ∷ rest)) ≡ false
        → 4 ≤ length rest
        → decode IoError maps uri_try_from uri_to_string unbounded_send
            (idle n m tx_event)
            (name ++ (b' ' ∷ rest))
          ≡ decode_request IoError maps uri_try_from uri_to_string unbounded_send
              (idle n m (
                told IoError maps uri_try_from uri_to_string unbounded_send decoding_started
                  tx_event))
              (name ++ (b' ' ∷ rest))
    unfolding decode decode_start send_codec_event
    request_call name rest no_break asks le =
        let some_bytes : ltb 0 (length (name ++ (b' ' ∷ rest))) ≡ true =
          ground (arith, length-append name (b' ' ∷ rest)) in
        let long : ltb (length (name ++ (b' ' ∷ rest))) 5 ≡ false =
          ground (arith, length-append name (b' ' ∷ rest)) in
        rw (skip_line_breaks-none (name ++ (b' ' ∷ rest)) no_break)
          (rw (some_bytes, long, asks) refl)

    request_decoded :
        (r : Request Bytes Map Uri)
        → SendableRequest.IsSendable maps uri_try_from uri_to_string request_config r
        → decode_request IoError maps uri_try_from uri_to_string unbounded_send
            (idle n m tx_event)
            (encode_request maps uri_to_string r [] ++ later)
          ≡ attempted
              (ok (some (arrived (request r))))
              (idle (length r.body) m (
                told IoError maps uri_try_from uri_to_string unbounded_send decoding_ended
                  tx_event))
              later
    unfolding decode_request decoded_request send_codec_event
    request_decoded r s =
        let text = encode_request maps uri_to_string r [] in
        let back =
          (decode-encode_request maps uri_try_from uri_to_string request_config r s n later).0 in
        let left : drop (length text) (text ++ later) ≡ later =
          ap (λ (k : ℕ). drop k (text ++ later)) {y = length text + 0} (omega arith)
          ∙ drop-length text later 0 in
        ap
          (decoded_request IoError maps uri_try_from uri_to_string unbounded_send
            (idle n m tx_event) (text ++ later))
          back
        ∙ ap
            (attempted (ok (some (arrived (request r)))) (
              idle (length r.body) m (
                told IoError maps uri_try_from uri_to_string unbounded_send decoding_ended
                  tx_event)))
            left

    response_decoded :
        (r : Response Bytes Map)
        → SendableResponse.IsSendable maps response_config r
        → decode_response IoError maps uri_try_from uri_to_string unbounded_send
            (idle n m tx_event)
            (encode_response maps r [] ++ later)
          ≡ attempted
              (ok (some (arrived (response r))))
              (idle n (length r.body) (
                told IoError maps uri_try_from uri_to_string unbounded_send decoding_ended
                  tx_event))
              later
    unfolding decode_response decoded_response send_codec_event
    response_decoded r s =
        let text = encode_response maps r [] in
        let back = (decode-encode_response maps response_config r s m later).0 in
        let left : drop (length text) (text ++ later) ≡ later =
          ap (λ (k : ℕ). drop k (text ++ later)) {y = length text + 0} (omega arith)
          ∙ drop-length text later 0 in
        ap
          (decoded_response IoError maps uri_try_from uri_to_string unbounded_send
            (idle n m tx_event) (text ++ later))
          back
        ∙ ap
            (attempted (ok (some (arrived (response r)))) (
              idle n (length r.body) (
                told IoError maps uri_try_from uri_to_string unbounded_send decoding_ended
                  tx_event)))
            left

    -- A call that meets the first line of a response.
    response_call :
        (rest : Bytes)
        → decode IoError maps uri_try_from uri_to_string unbounded_send
            (idle n m tx_event)
            (Version.as_encoded Version.rtsp2_0 ++ rest)
          ≡ decode_response IoError maps uri_try_from uri_to_string unbounded_send
              (idle n m (
                told IoError maps uri_try_from uri_to_string unbounded_send decoding_started
                  tx_event))
              (Version.as_encoded Version.rtsp2_0 ++ rest)
    unfolding decode decode_start send_codec_event Version.as_encoded starts_with
    response_call rest =
        let buffer = bytes "RTSP/2.0" ++ rest in
        let some_bytes : ltb 0 (length buffer) ≡ true = ground arith in
        let long : ltb (length buffer) 5 ≡ false = ground arith in
        rw (skip_line_breaks-none buffer refl) (rw (some_bytes, long) refl)

  -- A message that waits at the start of the buffer is decoded by one call.
  pub decode-encode_message :
      (n m : ℕ) (tx_event : Option Sink) (later : Bytes) (message : Message Map Uri)
      → IsSendable message
      → decode IoError maps uri_try_from uri_to_string unbounded_send (idle n m tx_event) (
          encode_message IoError maps uri_try_from uri_to_string unbounded_send message [] ++ later)
        ≡ attempted
            (ok (some (arrived message)))
            (idle (last_request message n) (last_response message m) (events tx_event))
            later
  unfolding encode_message
  decode-encode_message n m tx_event later (request r) s =
      let split =
        RequestWhole.encode_request-append maps uri_try_from uri_to_string request_config r s n
          later in
      let token = is_token-as_str _ r.method s.method_parses in
      let started =
        told IoError maps uri_try_from uri_to_string unbounded_send decoding_started tx_event in
      ap (decode IoError maps uri_try_from uri_to_string unbounded_send (idle n m tx_event)) split
      ∙ request_call n m tx_event later (Method.as_str r.method) _
          (is_token-starts_with (Method.as_str r.method) _ token)
          (is_token-starts_with_rtsp (Method.as_str r.method) _ token)
          (RequestWhole.behind_method-le maps uri_try_from uri_to_string request_config r s n later)
      ∙ ap
          (decode_request IoError maps uri_try_from uri_to_string unbounded_send (idle n m started))
          (sym split)
      ∙ request_decoded n m started later r s
  decode-encode_message n m tx_event later (response r) s =
      let split = ResponseWhole.encode_response-append maps response_config r s m later in
      let started =
        told IoError maps uri_try_from uri_to_string unbounded_send decoding_started tx_event in
      ap (decode IoError maps uri_try_from uri_to_string unbounded_send (idle n m tx_event)) split
      ∙ response_call n m tx_event later _
      ∙ ap
          (decode_response IoError maps uri_try_from uri_to_string unbounded_send
            (idle n m started))
          (sym split)
      ∙ response_decoded n m started later r s
