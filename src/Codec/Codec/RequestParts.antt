-- ===== src/Codec/Codec/RequestParts.antt =====
-- rtsp-2/src/protocol/codec/mod.rs: a request that arrives in parts, at the codec.
use rtsp_rs.Prelude.{
  ℕ, ◌≤◌, ◌≡◌, refl, ap, sym, ◌∙◌, true, ◌++◌, Bytes, length, drop, drop-append, Option, none, some,
  Result, ok, err, Bool-cases, inl, inr,
}
use rtsp_rs.Header.Map.{HeaderMaps}
use rtsp_rs.Request.{Request}
use rtsp_rs.Codec.Decoder.{complete, error, incomplete}
use rtsp_rs.Codec.Decoder.Loop.Chunks.{Continues, advance}
use rtsp_rs.Codec.Decoder.Loop.Report
use rtsp_rs.Codec.Decoder.Loop.Report.{Decoded}
use rtsp_rs.Codec.Decoder.Loop.Start.{Unmoved}
use rtsp_rs.Codec.Decoder.Loop.Total.{Reports}
use rtsp_rs.Codec.Decoder.Request as RequestDecoder
use rtsp_rs.Codec.Decoder.Request.Limits as RequestLimits
use rtsp_rs.Codec.Decoder.Request.Safety as RequestSafety
use rtsp_rs.Codec.Decoder.Request.Start as RequestStart
use rtsp_rs.Codec.Decoder.Request.Start.{is_at_method}
use rtsp_rs.Codec.Decoder.Request.Turns as RequestTurns
use rtsp_rs.Codec.Decoder.Response as ResponseDecoder
use rtsp_rs.Codec.Decoder.Response.Start.{is_at_version}
use rtsp_rs.Codec.Codec.{
  Codec, Message, Attempt, attempted, CodecEvent, decoding_ended, decode_error, send_codec_event,
  decoded_request, decode_request, decode,
}
use rtsp_rs.Codec.Codec.{DecodeError as CodecError}
use rtsp_rs.Codec.Codec.Parts.{drop_later, forget, Resumes}

module _ {Map Uri UriError Sink : Type 0} (IoError : Type 0) (maps : HeaderMaps Map)
    (uri_try_from : Bytes → Result Uri UriError) (uri_to_string : Uri → Bytes)
    (unbounded_send : CodecEvent → Sink → Option Sink) (request_config : RequestLimits.Config)
    (response_config : ResponseDecoder.Config) where
  abbrev forgets : Attempt Map Uri UriError IoError Sink → Attempt Map Uri UriError IoError Sink
  forgets =
      forget IoError maps uri_try_from uri_to_string unbounded_send request_config response_config

  abbrev ResumesIn :
      Bytes → Attempt Map Uri UriError IoError Sink → Attempt Map Uri UriError IoError Sink → Type 0
  ResumesIn =
      Resumes IoError maps uri_try_from uri_to_string unbounded_send request_config response_config

  pub request_forget :
      (c : Codec Map Uri UriError Sink) (tx_event : Option Sink) (buffer : Bytes)
      → forgets (
          decode_request IoError maps uri_try_from uri_to_string unbounded_send
            (record c { tx_event = tx_event })
            buffer)
        ≡ forgets (decode_request IoError maps uri_try_from uri_to_string unbounded_send c buffer)
  unfolding decode_request decoded_request send_codec_event
  request_forget c tx_event buffer =
      go (RequestTurns.decode maps uri_try_from c.request_decoder buffer)
    where
      go :
          (r : Decoded
            (RequestDecoder.Decoder Map Uri UriError)
            (Request Bytes Map Uri)
            (RequestDecoder.DecodeError UriError))
          → forgets (
              decoded_request IoError maps uri_try_from uri_to_string unbounded_send
                (record c { tx_event = tx_event })
                buffer
                r)
            ≡ forgets
                (decoded_request IoError maps uri_try_from uri_to_string unbounded_send c buffer r)
      go (Report.returned (complete m) n d) = refl
      go (Report.returned incomplete n d) = refl
      go (Report.returned (error e) n d) = refl
      go Report.panicked = refl
      go Report.out_of_fuel = refl

  module _ (c : Codec Map Uri UriError Sink) (buffer later : Bytes) where
    -- The later call, with the bytes of the earlier one counted.
    request_advance :
        (n : ℕ) (d : RequestDecoder.Decoder Map Uri UriError)
        (r : Decoded
          (RequestDecoder.Decoder Map Uri UriError)
          (Request Bytes Map Uri)
          (RequestDecoder.DecodeError UriError))
        → n ≤ length buffer
        → forgets (
            decoded_request IoError maps uri_try_from uri_to_string unbounded_send c
              (buffer ++ later)
              (advance n r))
          ≡ forgets (
              decoded_request IoError maps uri_try_from uri_to_string unbounded_send
                (record c { request_decoder = d })
                (drop n buffer ++ later)
                r)
    unfolding decoded_request send_codec_event
    request_advance n d (Report.returned (complete m) k e) le =
        ap
          (attempted (ok (some (Message.request m)))
            (record c { request_decoder = e; tx_event = none }))
          (drop_later buffer later n k le)
    request_advance n d (Report.returned incomplete k e) le =
        ap (attempted (ok none) (record c { request_decoder = e; tx_event = none }))
          (drop_later buffer later n k le)
    request_advance n d (Report.returned (error x) k e) le =
        ap
          (attempted (err (decode_error (CodecError.request x)))
            (record c { request_decoder = e; tx_event = none }))
          (drop_later buffer later n k le)
    request_advance n d Report.panicked le = refl
    request_advance n d Report.out_of_fuel le = refl

    -- The call of the decoder. One that asks for more bytes at its start is called by `decode` again.
    pub request_Resumes :
        (r : Decoded
          (RequestDecoder.Decoder Map Uri UriError)
          (Request Bytes Map Uri)
          (RequestDecoder.DecodeError UriError))
        → Reports
            (RequestSafety.IsSound maps request_config)
            (RequestSafety.IsAllowed maps request_config)
            (RequestSafety.Failed maps)
            buffer
            r
        → Continues
            (RequestTurns.decode maps uri_try_from)
            buffer
            later
            r
            (RequestTurns.decode maps uri_try_from c.request_decoder (buffer ++ later))
        → Unmoved (RequestStart.at_start maps uri_try_from) c.request_decoder r
        → is_at_version c.response_decoder.state ≡ true
        → (is_at_method c.request_decoder.state ≡ true
            → forgets
                (decode IoError maps uri_try_from uri_to_string unbounded_send c (buffer ++ later))
              ≡ forgets (
                  decode_request IoError maps uri_try_from uri_to_string unbounded_send c
                    (buffer ++ later)))
        → ResumesIn later
            (decoded_request IoError maps uri_try_from uri_to_string unbounded_send c buffer r)
            (decode_request IoError maps uri_try_from uri_to_string unbounded_send c
              (buffer ++ later))
    unfolding decoded_request decode_request send_codec_event
    request_Resumes (Report.returned (complete m) n d) h w u start restart =
        ap
          (decoded_request IoError maps uri_try_from uri_to_string unbounded_send c
            (buffer ++ later))
          w
        ∙ ap
            (attempted (ok (some (Message.request m))) (
              send_codec_event IoError maps uri_try_from uri_to_string unbounded_send decoding_ended
                (record c { request_decoder = d })))
            (drop-append n buffer later h.2)
    request_Resumes (Report.returned incomplete n d) h w u start restart =
        elim (Bool-cases (is_at_method d.state)) [
          | inr asking ↦
              ap
                (λ r. forgets (
                  decoded_request IoError maps uri_try_from uri_to_string unbounded_send c
                    (buffer ++ later) r))
                w
              ∙ request_advance n d
                  (RequestTurns.decode maps uri_try_from d (drop n buffer ++ later)) h.1
              ∙ (unfold decode in (rw asking refl))
          | inl fresh ↦
              let (same, none_taken) = u fresh in
              sym (restart (ap (λ d. is_at_method d.state) (sym same) ∙ fresh))
              ∙ ap
                  (λ d. forgets (
                    decode IoError maps uri_try_from uri_to_string unbounded_send
                      (record c { request_decoder = d }) (buffer ++ later)))
                  (sym same)
              ∙ ap
                  (λ k. forgets (
                    decode IoError maps uri_try_from uri_to_string unbounded_send
                      (record c { request_decoder = d }) (drop k buffer ++ later)))
                  (sym none_taken)
        ]
    request_Resumes (Report.returned (error e) n d) h w u start restart = tt
    request_Resumes Report.panicked h w u start restart = absurd h
    request_Resumes Report.out_of_fuel h w u start restart = absurd h
