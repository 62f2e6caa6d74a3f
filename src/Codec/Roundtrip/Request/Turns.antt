-- ===== src/Codec/Roundtrip/Request/Turns.antt =====
-- rtsp-2/src/protocol/codec: the turns of the request decoder on the headers and the body that the encoder writes.
use rtsp_rs.Prelude.{
  ℕ, ◌+◌, ◌≤◌, ◌<◌, ◌≡◌, refl, ap, ◌∙◌, true, false, ◌∷◌, ◌++◌, Bytes, bytes, length, length-append,
  drop, ltb, leb, some, none, ok, Result, starts_with, arith, Bool-cases, inl, inr,
}
use rtsp_rs.Header.ContentLength
use rtsp_rs.Header.Map.{HeaderMaps, typed_try_get}
use rtsp_rs.Header.Name
use rtsp_rs.Header.Name.{HeaderName, canonical_name}
use rtsp_rs.Header.Name.Cases.{is_token-canonical_name}
use rtsp_rs.Header.Value.{HeaderValue}
use rtsp_rs.Method.{Method}
use rtsp_rs.Request.{build, new_builder}
use rtsp_rs.Version.{rtsp2_0}
use rtsp_rs.Syntax.{is_token}
use rtsp_rs.Codec.Decoder.{complete}
use rtsp_rs.Codec.Decoder.Loop.{again, broke}
use rtsp_rs.Codec.Decoder.Request.{
  at_body, at_end, at_header, at_method, Decoder, decode_body, decode_header, decode_header_line,
  append_header, decode_header_name, decode_header_value, end_of_headers, header_name_too_long,
  header_value_too_long,
}
use rtsp_rs.Codec.Decoder.Request.Limits.{Config}
use rtsp_rs.Codec.Decoder.Request.Turns.{turn, turn_in, settle, finish}
use rtsp_rs.Codec.Encoder.{header_line}
use rtsp_rs.Codec.Roundtrip.Lines.{
  IsWritable, header_line-append, find_header_name-printed, find_header_value-printed, name_read,
  value_read,
}
use rtsp_rs.Codec.Roundtrip.Printed.{lacks, starts_nonblank, take-length, drop-length}
use rtsp_rs.Codec.Roundtrip.Sent.{read_content_length}
use rtsp_rs.Codec.Roundtrip.Request.FirstLine.{stage}

-- A decoder with a configuration, which may have decoded messages before, the last with that content
-- length.
module _ {Map Uri UriError : Type 0} (maps : HeaderMaps Map)
    (uri_try_from : Bytes → Result Uri UriError) (config : Config) (before : ℕ) where
  name_found :
      (name rest : Bytes)
      → is_token name ≡ true
      → length name ≤ config.header_name_max_length
      → decode_header_name {UriError = UriError} config (name ++ (b':' ∷ rest))
        ≡ complete (some name)
  unfolding decode_header_name
  name_found name rest token le =
      find_header_name-printed header_name_too_long config.header_name_max_length name rest token le

  value_found :
      (value rest : Bytes)
      → lacks b'\r' value ≡ true
      → length value ≤ config.header_value_max_length
      → starts_nonblank rest ≡ true
      → decode_header_value {UriError = UriError} config (value ++ (b'\r' ∷ b'\n' ∷ rest))
        ≡ complete value
  unfolding decode_header_value
  value_found value rest one_line le next =
      find_header_value-printed header_value_too_long config.header_value_max_length value rest
        one_line le next

  module _ (m : Method) (u : Uri) where
    -- A turn in the headers.
    abbrev pub header_stage : Map → Decoder Map Uri UriError
    header_stage map = stage config at_header (some m) (some u) map none before

    line_turn :
        {name : HeaderName} {value : HeaderValue} (map : Map) (buffer behind rest : Bytes)
        → IsWritable config.header_name_max_length config.header_value_max_length name value
        → maps.values_len map < config.header_max_count
        → decode_header_name {UriError = UriError} config buffer
          ≡ complete (some (canonical_name name))
        → drop (length (canonical_name name) + 1) buffer ≡ behind
        → decode_header_value {UriError = UriError} config behind ≡ complete (b' ' ∷ value.text)
        → drop (length (b' ' ∷ value.text) + 2) behind ≡ rest
        → turn maps uri_try_from (header_stage map) buffer
          ≡ again (header_stage (maps.append name value map)) rest
    unfolding turn turn_in decode_header decode_header_line append_header settle
    line_turn {name} {value} map buffer behind rest w less found cut value_at cut_value =
        let room : leb config.header_max_count (maps.values_len map) ≡ false = ground arith in
        rw
          (
            decode_header,
            found,
            decode_header_line,
            room,
            cut,
            value_at,
            append_header,
            name_read w,
            value_read w,
            cut,
            cut_value,
          )
          refl

    pub header_turn :
        (name : HeaderName) (value : HeaderValue) (map : Map) (rest : Bytes)
        → IsWritable config.header_name_max_length config.header_value_max_length name value
        → maps.values_len map < config.header_max_count
        → starts_nonblank rest ≡ true
        → turn maps uri_try_from (header_stage map) (header_line name value.text ++ rest)
          ≡ again (header_stage (maps.append name value map)) rest
    header_turn name value map rest w less next =
        let token = is_token-canonical_name _ name w.name_parses in
        let line = b' ' ∷ value.text in
        let behind = line ++ (b'\r' ∷ b'\n' ∷ rest) in
        let one_line : lacks b'\r' line ≡ true = ground (arith, w.one_line) in
        ap (turn maps uri_try_from (header_stage map)) (header_line-append name value.text rest)
        ∙ line_turn map (canonical_name name ++ (b':' ∷ behind)) behind rest w less
            (name_found (canonical_name name) behind token w.name_le)
            (drop-length (canonical_name name) (b':' ∷ behind) 1)
            (value_found line rest one_line (omega (arith, w.value_le)) next)
            (drop-length line (b'\r' ∷ b'\n' ∷ rest) 2)

    -- The empty line behind the headers, the body, and the end.
    pub empty_line_turn :
        (map : Map) (size : ℕ) (rest : Bytes)
        → typed_try_get maps Name.content_length ContentLength.decode map
          ≡ ok (read_content_length maps size)
        → size ≤ config.body_max_length
        → turn maps uri_try_from (header_stage map) (bytes "\r\n" ++ rest)
          ≡ again (stage config at_body (some m) (some u) map none size) rest
    unfolding turn turn_in decode_header decode_header_name end_of_headers settle starts_with
    empty_line_turn map size rest length_is le = elim (Bool-cases (ltb 0 size)) [
      | inl some_body ↦
          let allowed : ltb config.body_max_length size ≡ false = ground arith in
          let read = rw some_body at length_is in rw (end_of_headers, read, allowed) refl
      | inr no_body ↦
          let read = rw no_body at length_is in
          let zero_size : 0 ≡ size = ground arith in
          rw (end_of_headers, read)
            (ap (λ n. again (stage config at_body (some m) (some u) map none n) rest) zero_size)
    ]

    pub body_turn :
        (map : Map) (body later : Bytes)
        → turn maps uri_try_from
            (stage config at_body (some m) (some u) map none (length body))
            (body ++ later)
          ≡ again (stage config at_end (some m) (some u) map (some body) (length body)) later
    unfolding turn turn_in decode_body settle
    body_turn map body later =
        let there : ltb (length (body ++ later)) (length body) ≡ false =
          ground (arith, length-append body later) in
        let left : drop (length body) (body ++ later) ≡ later =
          ap (λ (k : ℕ). drop k (body ++ later)) {y = length body + 0} (omega arith)
          ∙ drop-length body later 0 in
        rw (decode_body, there, take-length body later, left) refl

    pub end_turn :
        (map : Map) (body later : Bytes)
        → turn maps uri_try_from
            (stage config at_end (some m) (some u) map (some body) (length body))
            later
          ≡ broke
              (complete
                (record { body = body; headers = map; method = m; uri = u; version = rtsp2_0 }))
              (stage config at_method none none maps.empty none (length body))
              later
    unfolding turn turn_in finish build new_builder
    end_turn map body later = refl
