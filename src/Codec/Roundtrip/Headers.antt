-- ===== src/Codec/Roundtrip/Headers.antt =====
-- rtsp-2/src/protocol/codec: what the encoders write behind the first line, and the decoders' way
-- through its headers. Both messages share it.
use rtsp_rs.Prelude.{
  ℕ, ◌+◌, ◌≤◌, ◌<◌, ◌≡◌, ap, sym, ◌∙◌, true, [], ◌∷◌, ◌++◌, append_assoc, Bytes, bytes, length, ltb,
  arith, Bool-cases, inl, inr,
}
use rtsp_rs.Header.ContentLength
use rtsp_rs.Header.Map.{HeaderMaps}
use rtsp_rs.Header.Name.{HeaderName}
use rtsp_rs.Header.Value.{HeaderValue}
use rtsp_rs.Codec.Decoder.Loop.{Turn, again}
use rtsp_rs.Codec.Decoder.Loop.Runs.{RunsTo, RunsTo-refl, RunsTo-turn, RunsTo-trans}
use rtsp_rs.Codec.Encoder.{encode_rest, header_line, content_length_line, header_lines}
use rtsp_rs.Codec.Roundtrip.Digits.{content_length-IsWritable}
use rtsp_rs.Codec.Roundtrip.Lines.{IsWritable}
use rtsp_rs.Codec.Roundtrip.Printed.{starts_nonblank}
use rtsp_rs.Codec.Roundtrip.Sent.{
  Headers, content_length_header, others, sent, lines, append_all, AllWritable, lines-next,
  sent-lines, iter-append_all,
}

module _ {Map : Type 0} (maps : HeaderMaps Map) where
  -- Headers and a body within the limits of a decoder for bodies, the number of headers, their names
  -- and their values; the headers are read as they are written.
  pub record IsSendableRest (body_max count_max name_max value_max : ℕ) (headers : Map)
      (body : Bytes) : Type 0 where
    pub headers_writable : AllWritable name_max value_max (others (maps.iter headers))
    pub headers_le : length (sent (maps.iter headers) (length body)) ≤ count_max
    pub body_le : length body ≤ body_max
    pub body_countable : length body ≤ ContentLength.max_content_length
    pub length_name_le : 14 ≤ name_max
    pub length_value_le : 21 ≤ value_max

  -- The headers that a decoder has read: those that were written.
  abbrev pub received : Map → Bytes → Map
  received headers body = append_all maps (sent (maps.iter headers) (length body)) maps.empty

  pub iter-received :
      (headers : Map) (body : Bytes)
      → maps.iter (received headers body)
        ≡ content_length_header (length body) ++ others (maps.iter headers)
  iter-received headers body =
      iter-append_all maps (sent (maps.iter headers) (length body)) maps.empty
      ∙ ap (λ l. l ++ sent (maps.iter headers) (length body)) maps.iter-empty

  -- The bytes behind the first line, with what follows the message.
  abbrev pub tail : Map → Bytes → Bytes → Bytes
  tail headers body later =
      lines (sent (maps.iter headers) (length body)) ++ (bytes "\r\n" ++ (body ++ later))

  pub encode_rest-append :
      (headers : Map) (body later : Bytes)
      → encode_rest maps headers body ++ later ≡ tail headers body later
  unfolding encode_rest
  encode_rest-append headers body later =
      let rest = bytes "\r\n" ++ (body ++ later) in
      simp (append_assoc) (
        sym
          (append_assoc (content_length_line (length body)) (header_lines (maps.iter headers)) rest)
        ∙ ap (λ l. l ++ rest) (sent-lines (maps.iter headers) (length body)))

  pub sent-AllWritable :
      (name_max value_max : ℕ) (headers : Headers) (body_size : ℕ)
      → AllWritable name_max value_max (others headers)
      → 14 ≤ name_max
      → 21 ≤ value_max
      → AllWritable name_max value_max (sent headers body_size)
  sent-AllWritable name_max value_max headers body_size w hn hv =
      elim (Bool-cases (ltb 0 body_size)) [
        | inl some_body ↦
            rw some_body (content_length-IsWritable name_max value_max body_size hn hv, w)
        | inr no_body ↦ rw no_body w
      ]

  -- A decoder that takes one header line takes all of them.
  module _ {D M E : Type 0} (turn : D → Bytes → Turn D M E) (count_max name_max value_max : ℕ)
      (stage : Map → D)
      (header_turn : (name : HeaderName) (value : HeaderValue) (map : Map) (rest : Bytes)
        → IsWritable name_max value_max name value
        → maps.values_len map < count_max
        → starts_nonblank rest ≡ true
        → turn (stage map) (header_line name value.text ++ rest)
          ≡ again (stage (maps.append name value map)) rest) where
    pub headers_run :
        (pairs : Headers) (map : Map) (rest : Bytes)
        → AllWritable name_max value_max pairs
        → maps.values_len map + length pairs ≤ count_max
        → RunsTo turn
            (stage map)
            (lines pairs ++ (bytes "\r\n" ++ rest))
            (stage (append_all maps pairs map))
            (bytes "\r\n" ++ rest)
    headers_run [] map rest w le = RunsTo-refl turn (stage map) (bytes "\r\n" ++ rest)
    headers_run ((name, value) ∷ pairs) map rest (w, ws) le =
        let more = lines pairs ++ (bytes "\r\n" ++ rest) in
        let next : starts_nonblank more ≡ true = lines-next _ _ pairs rest ws in
        let here =
          RunsTo-turn turn _ _ _ _ (header_turn name value map more w (omega arith) next) in
        let regroup : (header_line name value.text ++ lines pairs) ++ (bytes "\r\n" ++ rest)
            ≡ header_line name value.text ++ more =
          append_assoc (header_line name value.text) _ _ in
        rw regroup (
          RunsTo-trans _ _ _ _ _ _ _ here (
            headers_run pairs (maps.append name value map) rest ws
              (omega (arith, maps.values_len-append name value map))))
