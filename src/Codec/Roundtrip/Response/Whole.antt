-- ===== src/Codec/Roundtrip/Response/Whole.antt =====
-- rtsp-2/src/protocol/codec: a response that is encoded is decoded again, whatever follows it.
use rtsp_rs.Prelude.{
  ℕ, ◌-◌, ◌≡◌, refl, ap, sym, ◌∙◌, [], ◌∷◌, ◌++◌, append_assoc, Bytes, bytes, length, length-append,
  some, arith,
}
use rtsp_rs.Header.Map.{HeaderMaps}
use rtsp_rs.Header.Numbers.{to_string}
use rtsp_rs.Response.{Response}
use rtsp_rs.Status.{to_code}
use rtsp_rs.Version
use rtsp_rs.Version.{Version, rtsp2_0}
use rtsp_rs.Codec.Decoder.{complete}
use rtsp_rs.Codec.Decoder.Loop.Report.{returned}
use rtsp_rs.Codec.Decoder.Loop.Runs.{RunsTo, RunsTo-turn, RunsTo-trans}
use rtsp_rs.Codec.Decoder.Response.{Config, at_end}
use rtsp_rs.Codec.Decoder.Response.Turns.{turn, decode, DecodedOf}
use rtsp_rs.Codec.Decoder.Response.Whole.{decode_run}
use rtsp_rs.Codec.Encoder.{encode_response}
use rtsp_rs.Codec.Roundtrip.Headers.{
  received, iter-received, tail, encode_rest-append, sent-AllWritable, headers_run,
}
use rtsp_rs.Codec.Roundtrip.Response.{IsSendable}
use rtsp_rs.Codec.Roundtrip.Response.FirstLine.{
  stage, waiting, version_turn, status_code_turn, reason_phrase_turn,
}
use rtsp_rs.Codec.Roundtrip.Response.Turns.{
  header_stage, header_turn, empty_line_turn, body_turn, end_turn,
}
use rtsp_rs.Codec.Roundtrip.Sent.{content_length_header, others, sent, typed_try_get-sent}

module _ {Map : Type 0} (maps : HeaderMaps Map) (config : Config) (response : Response Bytes Map)
    (s : IsSendable maps config response) (before : ℕ) (later : Bytes) where
  -- What is written, with what follows it.
  abbrev pub written : Bytes
  written =
      Version.as_encoded rtsp2_0
      ++ (b' '
          ∷ (to_string (to_code response.status_code)
              ++ (b' '
                  ∷ (response.reason_phrase
                      ++ (bytes "\r\n" ++ tail maps response.headers response.body later)))))

  pub encode_response-append : encode_response maps response [] ++ later ≡ written
  unfolding encode_response
  encode_response-append =
      rw s.is_rtsp2_0
        (simp (append_assoc, encode_rest-append maps response.headers response.body later) refl)

  first_line_run :
      RunsTo
        (turn maps)
        (waiting maps config before)
        written
        (header_stage maps config before response.status_code response.reason_phrase maps.empty)
        (tail maps response.headers response.body later)
  first_line_run =
      let code = response.status_code in
      let reason = response.reason_phrase in
      RunsTo-trans (turn maps) _ _ _ _ _ _
        (RunsTo-turn (turn maps) _ _ _ _ (version_turn maps config before _))
        (RunsTo-trans (turn maps) _ _ _ _ _ _
          (RunsTo-turn (turn maps) _ _ _ _
            (status_code_turn maps config before code _ s.code_parses))
          (RunsTo-turn (turn maps) _ _ _ _ (
            reason_phrase_turn maps config before code reason _ s.reason_parses s.reason_one_line
              s.reason_le)))

  rest_run :
      RunsTo
        (turn maps)
        (header_stage maps config before response.status_code response.reason_phrase maps.empty)
        (tail maps response.headers response.body later)
        (stage config at_end response.status_code
          (some response.reason_phrase)
          (received maps response.headers response.body)
          (some response.body)
          (length response.body))
        later
  rest_run =
      let r = s.rest_sendable in
      let code = response.status_code in
      let reason = response.reason_phrase in
      let map = received maps response.headers response.body in
      let pairs = sent (maps.iter response.headers) (length response.body) in
      RunsTo-trans (turn maps) _ _ _ _ _ _
        (headers_run maps (turn maps) config.header_max_count config.header_name_max_length
          config.header_value_max_length (header_stage maps config before code reason)
          (header_turn maps config before code reason) pairs maps.empty (response.body ++ later)
          (sent-AllWritable maps _ _ (maps.iter response.headers) (length response.body)
            r.headers_writable r.length_name_le r.length_value_le)
          (omega (arith, r.headers_le, maps.values_len-empty)))
        (RunsTo-trans (turn maps) _ _ _ _ _ _
          (RunsTo-turn (turn maps) _ _ _ _ (
            empty_line_turn maps config before code reason map (length response.body)
              (response.body ++ later)
              (typed_try_get-sent maps (maps.iter response.headers) (length response.body)
                r.body_countable)
              r.body_le))
          (RunsTo-turn (turn maps) _ _ _ _
            (body_turn maps config before code reason map response.body later)))

  decode_whole :
      decode maps (waiting maps config before) (encode_response maps response [] ++ later)
      ≡ returned
          (complete (record response { headers = received maps response.headers response.body }))
          (length (encode_response maps response []))
          (waiting maps config (length response.body))
  decode_whole =
      let all = encode_response maps response [] in
      let map = received maps response.headers response.body in
      let reads : Version → ℕ → DecodedOf Map = λ v n.
        returned (complete (record response { headers = map; version = v })) n
          (waiting maps config (length response.body)) in
      let whole =
        decode_run maps _ _ _ _ _ _ _ (RunsTo-trans _ _ _ _ _ _ _ first_line_run rest_run) (
          end_turn maps config before response.status_code response.reason_phrase map response.body
            later s.reason_is) in
      let taken : length (all ++ later) - length later ≡ length all =
        omega (arith, length-append all later) in
      ap (decode maps (waiting maps config before)) encode_response-append
      ∙ whole
      ∙ ap (λ l. reads rtsp2_0 (length l - length later)) (sym encode_response-append)
      ∙ ap (reads rtsp2_0) taken
      ∙ ap (λ v. reads v (length all)) (sym s.is_rtsp2_0)

  -- A response that `encode` writes is read back by a response decoder that waits for one, whatever
  -- bytes follow it, when the response has the version RTSP/2.0, is within the decoder's limits, has
  -- the canonical reason phrase unless its status code is an extension, and its status code, reason
  -- phrase and header fields are parsed back from what is written for them: the decoder takes exactly
  -- the bytes that were written and waits for the next response. The decoded response differs in its
  -- headers only, which are, in this order, the length of the body, unless it is empty, and the
  -- headers of the response without any content length that they had.
  pub decode-encode_response :
      (decode maps (waiting maps config before) (encode_response maps response [] ++ later)
        ≡ returned
            (complete (record response { headers = received maps response.headers response.body }))
            (length (encode_response maps response []))
            (waiting maps config (length response.body)))
      × (maps.iter (received maps response.headers response.body)
          ≡ content_length_header (length response.body) ++ others (maps.iter response.headers))
  decode-encode_response = (decode_whole, iter-received maps response.headers response.body)
