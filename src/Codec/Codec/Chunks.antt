-- ===== src/Codec/Codec/Chunks.antt =====
-- rtsp-2/src/protocol/codec/mod.rs: bytes that arrive in parts are decoded as if they had arrived at
-- once.
use rtsp_rs.Prelude.{
  append-nil, ◌≡◌, refl, ap, sym, ◌∙◌, true, false, [], ◌++◌, Bytes, bytes, length, ltb,
  starts_with, Option, Result, if◌then◌else◌, arith, Bool-cases, inl, inr,
}
use rtsp_rs.Header.Map.{HeaderMaps}
use rtsp_rs.Codec.Decoder.Request.Chunks as RequestChunks
use rtsp_rs.Codec.Decoder.Request.Limits as RequestLimits
use rtsp_rs.Codec.Decoder.Request.Start as RequestStart
use rtsp_rs.Codec.Decoder.Request.Start.{is_at_method}
use rtsp_rs.Codec.Decoder.Request.Whole as RequestWhole
use rtsp_rs.Codec.Decoder.Response as ResponseDecoder
use rtsp_rs.Codec.Decoder.Response.Start as ResponseStart
use rtsp_rs.Codec.Decoder.Response.Start.{is_at_version}
use rtsp_rs.Codec.Decoder.Response.Whole as ResponseWhole
use rtsp_rs.Codec.Codec.{
  Codec, Attempt, CodecEvent, decoding_started, minimum_info_line_size, skip_line_breaks,
  send_codec_event, decode_request, decode_response, decode_start, decode,
}
use rtsp_rs.Codec.Codec.Idle.{skip_line_breaks-none}
use rtsp_rs.Codec.Codec.Parts.{forget, Resumes}
use rtsp_rs.Codec.Codec.RequestParts.{request_forget, request_Resumes}
use rtsp_rs.Codec.Codec.ResponseParts.{response_forget, response_Resumes}
use rtsp_rs.Codec.Codec.Sound.{IsSound, send_codec_event-IsSound}
use rtsp_rs.Codec.Codec.Choice.{
  starts_with-append, skip_line_breaks-starts_with, skip_line_breaks-append, decode_start-long,
  decodes-long, decode_start-forget,
}

module _ {Map Uri UriError Sink : Type 0} (IoError : Type 0) (maps : HeaderMaps Map)
    (uri_try_from : Bytes → Result Uri UriError) (uri_to_string : Uri → Bytes)
    (unbounded_send : CodecEvent → Sink → Option Sink) (request_config : RequestLimits.Config)
    (response_config : ResponseDecoder.Config) where
  abbrev decodes : Codec Map Uri UriError Sink → Bytes → Attempt Map Uri UriError IoError Sink
  decodes = decode IoError maps uri_try_from uri_to_string unbounded_send

  abbrev told_started : Codec Map Uri UriError Sink → Codec Map Uri UriError Sink
  told_started =
      send_codec_event IoError maps uri_try_from uri_to_string unbounded_send decoding_started

  abbrev Sound : Codec Map Uri UriError Sink → Type 0
  Sound =
      IsSound IoError maps uri_try_from uri_to_string unbounded_send request_config response_config

  abbrev forgets : Attempt Map Uri UriError IoError Sink → Attempt Map Uri UriError IoError Sink
  forgets =
      forget IoError maps uri_try_from uri_to_string unbounded_send request_config response_config

  abbrev ResumesIn :
      Bytes → Attempt Map Uri UriError IoError Sink → Attempt Map Uri UriError IoError Sink → Type 0
  ResumesIn =
      Resumes IoError maps uri_try_from uri_to_string unbounded_send request_config response_config

  -- The choice between the decoders, by a buffer that is long enough.
  abbrev chosen :
      Codec Map Uri UriError Sink → Bytes → Bytes → Attempt Map Uri UriError IoError Sink
  chosen c head buffer =
      if starts_with (bytes "RTSP/") head
      then decode_response IoError maps uri_try_from uri_to_string unbounded_send c buffer
      else decode_request IoError maps uri_try_from uri_to_string unbounded_send c buffer

  module _ (c : Codec Map Uri UriError Sink) (buffer later : Bytes) (s : Sound c) where
    request_resumes :
        is_at_version c.response_decoder.state ≡ true
        → (is_at_method c.request_decoder.state ≡ true
            → forgets (decodes c (buffer ++ later))
              ≡ forgets (
                  decode_request IoError maps uri_try_from uri_to_string unbounded_send c
                    (buffer ++ later)))
        → ResumesIn later
            (decode_request IoError maps uri_try_from uri_to_string unbounded_send c buffer)
            (decode_request IoError maps uri_try_from uri_to_string unbounded_send c
              (buffer ++ later))
    unfolding decode_request
    request_resumes version restart =
        request_Resumes IoError maps uri_try_from uri_to_string unbounded_send request_config
          response_config c buffer later _
          (RequestWhole.decode-Reports maps uri_try_from request_config c.request_decoder buffer
            s.request_sound)
          (RequestChunks.decode-Continues maps uri_try_from c.request_decoder buffer later)
          (RequestStart.decode-Unmoved maps uri_try_from c.request_decoder buffer) version restart

    response_resumes :
        is_at_method c.request_decoder.state ≡ true
        → (is_at_version c.response_decoder.state ≡ true
            → forgets (decodes c (buffer ++ later))
              ≡ forgets (
                  decode_response IoError maps uri_try_from uri_to_string unbounded_send c
                    (buffer ++ later)))
        → ResumesIn later
            (decode_response IoError maps uri_try_from uri_to_string unbounded_send c buffer)
            (decode_response IoError maps uri_try_from uri_to_string unbounded_send c
              (buffer ++ later))
    unfolding decode_response
    response_resumes method restart =
        response_Resumes IoError maps uri_try_from uri_to_string unbounded_send request_config
          response_config c buffer later _
          (ResponseWhole.decode_returns maps response_config c.response_decoder buffer
            s.response_sound)
          (ResponseWhole.decode_resumes maps c.response_decoder buffer later)
          (ResponseStart.decode-Unmoved maps c.response_decoder buffer) method restart

  module _ (c : Codec Map Uri UriError Sink) (s : Sound c)
      (method : is_at_method c.request_decoder.state ≡ true)
      (version : is_at_version c.response_decoder.state ≡ true) (head later : Bytes)
      (no_break : starts_with (bytes "\r\n") head ≡ false) where
    chosen_resumes :
        ltb (length head) minimum_info_line_size ≡ false
        → ResumesIn later (chosen c head head) (chosen c head (head ++ later))
    unfolding send_codec_event
    chosen_resumes long =
        let again = ap forgets (
          decodes-long IoError maps uri_try_from uri_to_string unbounded_send request_config
            response_config c head later long method version no_break) in
        elim (Bool-cases (starts_with (bytes "RTSP/") head)) [
          | inl answers ↦ rw answers (
              response_resumes c head later s method (λ fresh.
                again
                ∙ (rw answers (
                    response_forget IoError maps uri_try_from uri_to_string unbounded_send
                      request_config response_config c _ (head ++ later)))))
          | inr asks ↦ rw asks (
              request_resumes c head later s version (λ fresh.
                again
                ∙ (rw asks (
                    request_forget IoError maps uri_try_from uri_to_string unbounded_send
                      request_config response_config c _ (head ++ later)))))
        ]

    -- A buffer that is too short to choose is looked at again.
    short_resumes :
        (tx_event : Option Sink)
        → forgets (
            decode_start IoError maps uri_try_from uri_to_string unbounded_send c
              (skip_line_breaks (head ++ later)))
          ≡ forgets (decodes (record c { tx_event = tx_event }) (head ++ later))
    unfolding decode
    short_resumes tx_event =
        sym (
          decode_start-forget IoError maps uri_try_from uri_to_string unbounded_send request_config
            response_config c tx_event (skip_line_breaks (head ++ later)))
        ∙ (rw (method, version) refl)

  module _ (c : Codec Map Uri UriError Sink) (s : Sound c)
      (method : is_at_method c.request_decoder.state ≡ true)
      (version : is_at_version c.response_decoder.state ≡ true) (head later : Bytes)
      (no_break : starts_with (bytes "\r\n") head ≡ false) where
    long_resumes :
        ltb (length head) minimum_info_line_size ≡ false
        → ResumesIn later
            (decode_start IoError maps uri_try_from uri_to_string unbounded_send c head)
            (decode_start IoError maps uri_try_from uri_to_string unbounded_send c
              (skip_line_breaks (head ++ later)))
    unfolding send_codec_event
    long_resumes long =
        let first : decode_start IoError maps uri_try_from uri_to_string unbounded_send c head
            ≡ chosen (told_started c) head head =
          ap (decode_start IoError maps uri_try_from uri_to_string unbounded_send c)
            (sym (append-nil head))
          ∙ decode_start-long IoError maps uri_try_from uri_to_string unbounded_send request_config
              response_config c head [] long
          ∙ ap (chosen (told_started c) head) (append-nil head) in
        let none_there : starts_with (bytes "\r\n") (head ++ later) ≡ false =
          starts_with-append (bytes "\r\n") head later (ground arith) ∙ no_break in
        let second : decode_start IoError maps uri_try_from uri_to_string unbounded_send c
              (skip_line_breaks (head ++ later))
            ≡ chosen (told_started c) head (head ++ later) =
          ap (decode_start IoError maps uri_try_from uri_to_string unbounded_send c)
            (skip_line_breaks-none (head ++ later) none_there)
          ∙ decode_start-long IoError maps uri_try_from uri_to_string unbounded_send request_config
              response_config c head later long in
        rw (first, second)
          (chosen_resumes (told_started c)
            (send_codec_event-IsSound IoError maps uri_try_from uri_to_string unbounded_send
              request_config response_config decoding_started c s)
            method version head later no_break long)

    start_resumes :
        ResumesIn later
          (decode_start IoError maps uri_try_from uri_to_string unbounded_send c head)
          (decode_start IoError maps uri_try_from uri_to_string unbounded_send c
            (skip_line_breaks (head ++ later)))
    start_resumes = elim (Bool-cases (ltb (length head) minimum_info_line_size)) [
      | inr long ↦ long_resumes long
      | inl short ↦ elim (Bool-cases (ltb 0 (length head))) [
        | inl some_bytes ↦
            unfold decode_start send_codec_event in
            rw (short, some_bytes) (short_resumes c s method version head later no_break _)
        | inr no_bytes ↦
            unfold decode_start send_codec_event in
            rw (short, no_bytes) (short_resumes c s method version head later no_break c.tx_event)
      ]
    ]

  -- A sound codec is called with some bytes, and more bytes come. When the call has returned a
  -- message, the call with all the bytes returns the same message, the same codec and the bytes left
  -- with the new ones behind them. When it has returned none, a second call with the bytes left and
  -- the new ones returns what one call with all the bytes returns, but for the events that are sent.
  -- (A call that ends in an error promises nothing.)
  pub decode-Resumes :
      (c : Codec Map Uri UriError Sink) (buffer later : Bytes)
      → IsSound IoError maps uri_try_from uri_to_string unbounded_send request_config
          response_config c
      → Resumes IoError maps uri_try_from uri_to_string unbounded_send request_config
          response_config later
          (decode IoError maps uri_try_from uri_to_string unbounded_send c buffer)
          (decode IoError maps uri_try_from uri_to_string unbounded_send c (buffer ++ later))
  unfolding decode
  decode-Resumes c buffer later s = elim (Bool-cases (is_at_method c.request_decoder.state)) [
    | inr asking ↦
        rw asking
          (request_resumes c buffer later s (ground (arith, s.one_active)) (λ fresh. absurd (cc)))
    | inl method ↦ elim (Bool-cases (is_at_version c.response_decoder.state)) [
      | inr answering ↦
          rw (method, answering) (response_resumes c buffer later s method (λ fresh. absurd (cc)))
      | inl version ↦
          rw (method, version, skip_line_breaks-append buffer later)
            (start_resumes c s method version (skip_line_breaks buffer) later
              (skip_line_breaks-starts_with buffer))
    ]
  ]
