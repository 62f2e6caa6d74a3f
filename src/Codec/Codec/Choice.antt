-- ===== src/Codec/Codec/Choice.antt =====
-- rtsp-2/src/protocol/codec/mod.rs: the choice between the decoders, with more bytes behind and
-- whatever the sink.
use rtsp_rs.Prelude.{
  ◌≤◌, ◌≡◌, refl, ap, sym, ◌∙◌, true, false, ◌&&◌, [], ◌∷◌, ◌++◌, ◌==◌, Bytes, bytes, length,
  length-append, ltb, starts_with, Option, none, Result, ok, if◌then◌else◌, arith, Bool-cases, inl,
  inr,
}
use rtsp_rs.Header.Map.{HeaderMaps}
use rtsp_rs.Codec.Decoder.Request.Limits as RequestLimits
use rtsp_rs.Codec.Decoder.Request.Start.{is_at_method}
use rtsp_rs.Codec.Decoder.Response as ResponseDecoder
use rtsp_rs.Codec.Decoder.Response.Start.{is_at_version}
use rtsp_rs.Codec.Codec.{
  Codec, Attempt, attempted, CodecEvent, decoding_started, minimum_info_line_size, skip_line_breaks,
  send_codec_event, decode_request, decode_response, decode_start, decode,
}
use rtsp_rs.Codec.Codec.Idle.{skip_line_breaks-none}
use rtsp_rs.Codec.Codec.Parts.{forget, Resumes}
use rtsp_rs.Codec.Codec.RequestParts.{request_forget}
use rtsp_rs.Codec.Codec.ResponseParts.{response_forget}
use rtsp_rs.Codec.Codec.Sound.{IsSound}

pub starts_with-append :
    (text buffer later : Bytes)
    → length text ≤ length buffer
    → starts_with text (buffer ++ later) ≡ starts_with text buffer
unfolding starts_with
starts_with-append [] buffer later le = refl
starts_with-append (t ∷ text) [] later le = absurd (omega arith)
starts_with-append (t ∷ text) (c ∷ buffer) later le =
    ap (λ b. (t == c) && b) (starts_with-append text buffer later (omega arith))

-- Behind the line breaks there is none.
pub skip_line_breaks-starts_with :
    (buffer : Bytes) → starts_with (bytes "\r\n") (skip_line_breaks buffer) ≡ false
unfolding skip_line_breaks starts_with
skip_line_breaks-starts_with [] = refl
skip_line_breaks-starts_with (a ∷ []) = ground arith
skip_line_breaks-starts_with (a ∷ b ∷ rest) = ground (arith, skip_line_breaks-starts_with rest)

pub skip_line_breaks-append :
    (buffer later : Bytes)
    → skip_line_breaks (buffer ++ later) ≡ skip_line_breaks (skip_line_breaks buffer ++ later)
unfolding skip_line_breaks
skip_line_breaks-append [] later = refl
skip_line_breaks-append (a ∷ []) later = refl
skip_line_breaks-append (a ∷ b ∷ rest) later = elim (Bool-cases (a == b'\r' && b == b'\n')) [
  | inl break ↦ rw break (skip_line_breaks-append rest later)
  | inr other ↦ rw other (rw other refl)
]

module _ {Map Uri UriError Sink : Type 0} (IoError : Type 0) (maps : HeaderMaps Map)
    (uri_try_from : Bytes → Result Uri UriError) (uri_to_string : Uri → Bytes)
    (unbounded_send : CodecEvent → Sink → Option Sink) (request_config : RequestLimits.Config)
    (response_config : ResponseDecoder.Config) where
  abbrev pub decodes : Codec Map Uri UriError Sink → Bytes → Attempt Map Uri UriError IoError Sink
  decodes = decode IoError maps uri_try_from uri_to_string unbounded_send

  abbrev pub told_started : Codec Map Uri UriError Sink → Codec Map Uri UriError Sink
  told_started =
      send_codec_event IoError maps uri_try_from uri_to_string unbounded_send decoding_started

  abbrev pub Sound : Codec Map Uri UriError Sink → Type 0
  Sound =
      IsSound IoError maps uri_try_from uri_to_string unbounded_send request_config response_config

  abbrev pub forgets : Attempt Map Uri UriError IoError Sink → Attempt Map Uri UriError IoError Sink
  forgets =
      forget IoError maps uri_try_from uri_to_string unbounded_send request_config response_config

  abbrev pub ResumesIn :
      Bytes → Attempt Map Uri UriError IoError Sink → Attempt Map Uri UriError IoError Sink → Type 0
  ResumesIn =
      Resumes IoError maps uri_try_from uri_to_string unbounded_send request_config response_config

  -- The choice between the decoders, by a buffer that is long enough.
  abbrev pub chosen :
      Codec Map Uri UriError Sink → Bytes → Bytes → Attempt Map Uri UriError IoError Sink
  chosen c head buffer =
      if starts_with (bytes "RTSP/") head
      then decode_response IoError maps uri_try_from uri_to_string unbounded_send c buffer
      else decode_request IoError maps uri_try_from uri_to_string unbounded_send c buffer

  module _ (c : Codec Map Uri UriError Sink) (head later : Bytes)
      (long : ltb (length head) minimum_info_line_size ≡ false) where
    pub decode_start-long :
        decode_start IoError maps uri_try_from uri_to_string unbounded_send c (head ++ later)
        ≡ chosen (told_started c) head (head ++ later)
    unfolding decode_start
    decode_start-long =
        let some_bytes : ltb 0 (length (head ++ later)) ≡ true =
          ground (arith, length-append head later) in
        let longer : ltb (length (head ++ later)) 5 ≡ false =
          ground (arith, length-append head later) in
        let same : starts_with (bytes "RTSP/") (head ++ later) ≡ starts_with (bytes "RTSP/") head =
          starts_with-append (bytes "RTSP/") head later (ground arith) in
        rw (some_bytes, longer, same) refl

    -- `decode` of a codec at its start comes to the same choice.
    pub decodes-long :
        is_at_method c.request_decoder.state ≡ true
        → is_at_version c.response_decoder.state ≡ true
        → starts_with (bytes "\r\n") head ≡ false
        → decodes c (head ++ later) ≡ chosen (told_started c) head (head ++ later)
    unfolding decode
    decodes-long method version no_break =
        let none_there : starts_with (bytes "\r\n") (head ++ later) ≡ false =
          starts_with-append (bytes "\r\n") head later (ground arith) ∙ no_break in
        rw (method, version)
          (ap (decode_start IoError maps uri_try_from uri_to_string unbounded_send c)
              (skip_line_breaks-none (head ++ later) none_there)
            ∙ decode_start-long)

  -- The sink makes no difference to a call.
  choice_forget :
      (c : Codec Map Uri UriError Sink) (s t : Option Sink) (buffer : Bytes)
      → forgets (
          if ltb (length buffer) minimum_info_line_size
          then attempted (ok none) (record c { tx_event = s }) buffer
          else chosen (record c { tx_event = s }) buffer buffer)
        ≡ forgets (
            if ltb (length buffer) minimum_info_line_size
            then attempted (ok none) (record c { tx_event = t }) buffer
            else chosen (record c { tx_event = t }) buffer buffer)
  choice_forget c s t buffer = elim (Bool-cases (ltb (length buffer) minimum_info_line_size)) [
    | inl short ↦ rw short refl
    | inr long ↦ elim (Bool-cases (starts_with (bytes "RTSP/") buffer)) [
      | inl answers ↦
          rw (long, answers)
            (response_forget IoError maps uri_try_from uri_to_string unbounded_send request_config
                response_config c s buffer
              ∙ sym (
                  response_forget IoError maps uri_try_from uri_to_string unbounded_send
                    request_config response_config c t buffer))
      | inr asks ↦
          rw (long, asks)
            (request_forget IoError maps uri_try_from uri_to_string unbounded_send request_config
                response_config c s buffer
              ∙ sym (
                  request_forget IoError maps uri_try_from uri_to_string unbounded_send
                    request_config response_config c t buffer))
    ]
  ]

  pub decode_start-forget :
      (c : Codec Map Uri UriError Sink) (tx_event : Option Sink) (buffer : Bytes)
      → forgets (
          decode_start IoError maps uri_try_from uri_to_string unbounded_send
            (record c { tx_event = tx_event })
            buffer)
        ≡ forgets (decode_start IoError maps uri_try_from uri_to_string unbounded_send c buffer)
  unfolding decode_start send_codec_event
  decode_start-forget c tx_event buffer = elim (Bool-cases (ltb 0 (length buffer))) [
    | inl some_bytes ↦ rw some_bytes (choice_forget c _ _ buffer)
    | inr no_bytes ↦ rw no_bytes (choice_forget c tx_event c.tx_event buffer)
  ]
