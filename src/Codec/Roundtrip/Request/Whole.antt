-- ===== src/Codec/Roundtrip/Request/Whole.antt =====
-- rtsp-2/src/protocol/codec: a request that is encoded is decoded again, whatever follows it.
use rtsp_rs.Prelude.{
  ◌≤◌, ℕ, ◌-◌, ◌≡◌, refl, ap, sym, ◌∙◌, [], ◌∷◌, ◌++◌, append_assoc, Bytes, bytes, length,
  length-append, some, Result, arith,
}
use rtsp_rs.Header.Map.{HeaderMaps}
use rtsp_rs.Method
use rtsp_rs.Request.{Request}
use rtsp_rs.Version
use rtsp_rs.Version.{Version, rtsp2_0}
use rtsp_rs.Codec.Decoder.{complete}
use rtsp_rs.Codec.Decoder.Loop.Report.{returned}
use rtsp_rs.Codec.Decoder.Loop.Runs.{RunsTo, RunsTo-turn, RunsTo-trans, decode-RunsTo}
use rtsp_rs.Codec.Decoder.Request.{at_end}
use rtsp_rs.Codec.Decoder.Request.Limits.{Config}
use rtsp_rs.Codec.Decoder.Request.Progress.{measure, enough, turn-Lowers}
use rtsp_rs.Codec.Decoder.Request.Turns.{turn, decode, DecodedOf}
use rtsp_rs.Codec.Encoder.{encode_request}
use rtsp_rs.Codec.Roundtrip.Headers.{
  received, iter-received, tail, encode_rest-append, sent-AllWritable, headers_run,
}
use rtsp_rs.Codec.Roundtrip.Request.{IsSendable}
use rtsp_rs.Codec.Roundtrip.Request.FirstLine.{stage, waiting, method_turn, uri_turn, version_turn}
use rtsp_rs.Codec.Roundtrip.Request.Turns.{
  header_stage, header_turn, empty_line_turn, body_turn, end_turn,
}
use rtsp_rs.Codec.Roundtrip.Sent.{content_length_header, others, sent, typed_try_get-sent}

module _ {Map Uri UriError : Type 0} (maps : HeaderMaps Map)
    (uri_try_from : Bytes → Result Uri UriError) (uri_to_string : Uri → Bytes) (config : Config)
    (request : Request Bytes Map Uri)
    (s : IsSendable maps uri_try_from uri_to_string config request) (before : ℕ)
    (later : Bytes) where
  -- What is written behind the method, with what follows the request.
  abbrev pub behind_method : Bytes
  behind_method =
      uri_to_string request.uri
      ++ (b' '
          ∷ (Version.as_encoded rtsp2_0
              ++ (bytes "\r\n" ++ tail maps request.headers request.body later)))

  pub behind_method-le : 4 ≤ length behind_method
  unfolding Version.as_encoded
  behind_method-le = omega (arith, length-append (uri_to_string request.uri))

  abbrev pub written : Bytes
  written = Method.as_str request.method ++ (b' ' ∷ behind_method)

  pub encode_request-append : encode_request maps uri_to_string request [] ++ later ≡ written
  unfolding encode_request
  encode_request-append =
      rw s.is_rtsp2_0
        (simp (append_assoc, encode_rest-append maps request.headers request.body later) refl)

  first_line_run :
      RunsTo
        (turn maps uri_try_from)
        (waiting maps config before)
        written
        (header_stage maps uri_try_from config before request.method request.uri maps.empty)
        (tail maps request.headers request.body later)
  first_line_run =
      let step = turn maps uri_try_from in
      let m = request.method in
      let u = request.uri in
      RunsTo-trans step _ _ _ _ _ _
        (RunsTo-turn step _ _ _ _
          (method_turn maps uri_try_from config before m _ s.method_parses s.method_le))
        (RunsTo-trans step _ _ _ _ _ _
          (RunsTo-turn step _ _ _ _ (
            uri_turn maps uri_try_from config before m u (uri_to_string u) _ s.uri_parses
              s.uri_lacks_space s.uri_le))
          (RunsTo-turn step _ _ _ _ (
            version_turn maps uri_try_from config before m u
              (tail maps request.headers request.body later))))

  rest_run :
      RunsTo
        (turn maps uri_try_from)
        (header_stage maps uri_try_from config before request.method request.uri maps.empty)
        (tail maps request.headers request.body later)
        (stage config at_end
          (some request.method)
          (some request.uri)
          (received maps request.headers request.body)
          (some request.body)
          (length request.body))
        later
  rest_run =
      let r = s.rest_sendable in
      let pairs = sent (maps.iter request.headers) (length request.body) in
      let step = turn maps uri_try_from in
      let m = request.method in
      let u = request.uri in
      let map = received maps request.headers request.body in
      RunsTo-trans step _ _ _ _ _ _
        (headers_run maps step config.header_max_count config.header_name_max_length
          config.header_value_max_length (header_stage maps uri_try_from config before m u)
          (header_turn maps uri_try_from config before m u) pairs maps.empty (request.body ++ later)
          (sent-AllWritable maps _ _ (maps.iter request.headers) (length request.body)
            r.headers_writable r.length_name_le r.length_value_le)
          (omega (arith, r.headers_le, maps.values_len-empty)))
        (RunsTo-trans step _ _ _ _ _ _
          (RunsTo-turn step _ _ _ _ (
            empty_line_turn maps uri_try_from config before m u map (length request.body)
              (request.body ++ later)
              (typed_try_get-sent maps (maps.iter request.headers) (length request.body)
                r.body_countable)
              r.body_le))
          (RunsTo-turn step _ _ _ _
            (body_turn maps uri_try_from config before m u map request.body later)))

  decode_whole :
      decode maps uri_try_from
        (waiting maps config before)
        (encode_request maps uri_to_string request [] ++ later)
      ≡ returned
          (complete (record request { headers = received maps request.headers request.body }))
          (length (encode_request maps uri_to_string request []))
          (waiting maps config (length request.body))
  unfolding decode
  decode_whole =
      let all = encode_request maps uri_to_string request [] in
      let map = received maps request.headers request.body in
      let reads : Version → ℕ → DecodedOf Map Uri UriError = λ v n.
        returned (complete (record request { headers = map; version = v })) n
          (waiting maps config (length request.body)) in
      let whole =
        decode-RunsTo (turn maps uri_try_from) measure (turn-Lowers maps uri_try_from) enough _ _ _
          _ _ _ _ (RunsTo-trans _ _ _ _ _ _ _ first_line_run rest_run)
          (end_turn maps uri_try_from config before request.method request.uri map request.body
            later) in
      let taken : length (all ++ later) - length later ≡ length all =
        omega (arith, length-append all later) in
      ap (decode maps uri_try_from (waiting maps config before)) encode_request-append
      ∙ whole
      ∙ ap (λ l. reads rtsp2_0 (length l - length later)) (sym encode_request-append)
      ∙ ap (reads rtsp2_0) taken
      ∙ ap (λ v. reads v (length all)) (sym s.is_rtsp2_0)

  -- A request that `encode` writes is read back by a request decoder that waits for one, whatever
  -- bytes follow it, when the request has the version RTSP/2.0, is within the decoder's limits, and
  -- its method, URI and header fields are parsed back from what is written for them: the decoder takes
  -- exactly the bytes that were written and waits for the next request. The decoded request differs in
  -- its headers only, which are, in this order, the length of the body, unless it is empty, and the
  -- headers of the request without any content length that they had.
  pub decode-encode_request :
      (decode maps uri_try_from
          (waiting maps config before)
          (encode_request maps uri_to_string request [] ++ later)
        ≡ returned
            (complete (record request { headers = received maps request.headers request.body }))
            (length (encode_request maps uri_to_string request []))
            (waiting maps config (length request.body)))
      × (maps.iter (received maps request.headers request.body)
          ≡ content_length_header (length request.body) ++ others (maps.iter request.headers))
  decode-encode_request = (decode_whole, iter-received maps request.headers request.body)
