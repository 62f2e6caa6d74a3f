-- ===== src/Codec/Roundtrip/Sent.antt =====
-- rtsp-2/src/protocol/codec/encoder: the headers that an encoder writes, and the map that a decoder
-- makes of them.
use rtsp_rs.Prelude.{
  ℕ, ◌≤◌, ◌≡◌, refl, ap, sym, ◌∙◌, Bool, true, List, [], ◌∷◌, ◌++◌, append-nil, append_assoc, Bytes,
  bytes, ltb, if◌then◌else◌, some, none, ok, arith, Bool-cases, inl, inr, Option,
}
use rtsp_rs.Header.ContentLength
use rtsp_rs.Header.Map.{HeaderMaps, typed_try_get}
use rtsp_rs.Header.Name
use rtsp_rs.Header.Name.{HeaderName, name_eq, canonical_name}
use rtsp_rs.Header.Numbers
use rtsp_rs.Header.Numbers.{parse-to_string}
use rtsp_rs.Header.Value.{HeaderValue}
use rtsp_rs.Header.Name.Cases.{is_token-canonical_name}
use rtsp_rs.Codec.Roundtrip.Lines.{IsWritable, header_line-append}
use rtsp_rs.Codec.Roundtrip.Printed.{starts_nonblank}
use rtsp_rs.Codec.Roundtrip.Tokens.{is_token-starts_nonblank}
use rtsp_rs.Codec.Encoder.{header_line, header_lines, content_length_line}

abbrev pub Headers : Type 0
Headers = List (HeaderName × HeaderValue)

abbrev pub is_content_length : HeaderName → Bool
is_content_length name = name_eq name Name.content_length

-- The headers of a message that the encoder writes.
abbrev pub others : Headers → Headers
others [] = []
others ((name, value) ∷ pairs) =
    if is_content_length name then others pairs else (name, value) ∷ others pairs

-- The header that it writes for the body.
abbrev pub content_length_header : ℕ → Headers
content_length_header body_size =
    if ltb 0 body_size
    then (Name.content_length, record { text = Numbers.to_string body_size }) ∷ []
    else []

abbrev pub lines : Headers → Bytes
lines [] = []
lines ((name, value) ∷ pairs) = header_line name value.text ++ lines pairs

pub header_lines-others : (pairs : Headers) → header_lines pairs ≡ lines (others pairs)
unfolding header_lines
header_lines-others [] = refl
header_lines-others ((name, value) ∷ pairs) = elim (Bool-cases (is_content_length name)) [
  | inl own ↦ rw own (header_lines-others pairs)
  | inr other ↦ rw other (ap (λ l. header_line name value.text ++ l) (header_lines-others pairs))
]

-- Every header can be written within limits for names and values.
abbrev pub AllWritable : ℕ → ℕ → Headers → Type 0
AllWritable name_max value_max [] = Unit {0}
AllWritable name_max value_max ((name, value) ∷ pairs) =
    IsWritable name_max value_max name value × AllWritable name_max value_max pairs

-- What follows a header line does not continue it.
pub lines-next :
    (name_max value_max : ℕ) (pairs : Headers) (rest : Bytes)
    → AllWritable name_max value_max pairs
    → starts_nonblank (lines pairs ++ (bytes "\r\n" ++ rest)) ≡ true
lines-next name_max value_max [] rest w = refl
lines-next name_max value_max ((name, value) ∷ pairs) rest (w, ws) =
    ap starts_nonblank (
      append_assoc (header_line name value.text) (lines pairs) (bytes "\r\n" ++ rest)
      ∙ header_line-append name value.text (lines pairs ++ (bytes "\r\n" ++ rest)))
    ∙ is_token-starts_nonblank (canonical_name name) _
        (is_token-canonical_name _ name w.name_parses)

lines-append : (a b : Headers) → lines (a ++ b) ≡ lines a ++ lines b
lines-append [] b = refl
lines-append ((name, value) ∷ a) b =
    ap (λ l. header_line name value.text ++ l) (lines-append a b)
    ∙ sym (append_assoc (header_line name value.text) (lines a) (lines b))

content_length_line-lines :
    (body_size : ℕ) → content_length_line body_size ≡ lines (content_length_header body_size)
unfolding content_length_line header_line canonical_name
content_length_line-lines body_size = elim (Bool-cases (ltb 0 body_size)) [
  | inl some_body ↦ rw some_body (rw append-nil refl)
  | inr no_body ↦ rw no_body refl
]

-- All headers that are written, in their order.
abbrev pub sent : Headers → ℕ → Headers
sent headers body_size = content_length_header body_size ++ others headers

pub sent-lines :
    (headers : Headers) (body_size : ℕ)
    → content_length_line body_size ++ header_lines headers ≡ lines (sent headers body_size)
sent-lines headers body_size =
    ap (λ l. l ++ header_lines headers) (content_length_line-lines body_size)
    ∙ ap (λ l. lines (content_length_header body_size) ++ l) (header_lines-others headers)
    ∙ sym (lines-append (content_length_header body_size) (others headers))

module _ {Map : Type 0} (maps : HeaderMaps Map) where
  -- The map with headers added one after the other.
  abbrev pub append_all : Headers → Map → Map
  append_all [] map = map
  append_all ((name, value) ∷ pairs) map = append_all pairs (maps.append name value map)

  pub iter-append_all :
      (pairs : Headers) (map : Map) → maps.iter (append_all pairs map) ≡ maps.iter map ++ pairs
  iter-append_all [] map = sym (append-nil (maps.iter map))
  iter-append_all ((name, value) ∷ pairs) map =
      iter-append_all pairs (maps.append name value map)
      ∙ ap (λ l. l ++ pairs) (maps.iter-append name value map)
      ∙ append_assoc (maps.iter map) ((name, value) ∷ []) pairs

  get_all-others :
      (pairs : Headers) (map : Map)
      → maps.get_all Name.content_length (append_all (others pairs) map)
        ≡ maps.get_all Name.content_length map
  get_all-others [] map = refl
  get_all-others ((name, value) ∷ pairs) map = elim (Bool-cases (is_content_length name)) [
    | inl own ↦ rw own (get_all-others pairs map)
    | inr other ↦
        let step = maps.get_all-append name Name.content_length value map in
        rw other (get_all-others pairs (maps.append name value map) ∙ (rw other at step))
  ]

  -- The content length that a decoder reads from the map: none for an empty body.
  abbrev pub read_content_length : ℕ → Option ℕ
  read_content_length body_size = if ltb 0 body_size then some body_size else none

  pub typed_try_get-sent :
      (headers : Headers) (body_size : ℕ)
      → body_size ≤ ContentLength.max_content_length
      → typed_try_get maps Name.content_length ContentLength.decode
          (append_all (sent headers body_size) maps.empty)
        ≡ ok (read_content_length body_size)
  unfolding ContentLength.decode name_eq
  typed_try_get-sent headers body_size le = elim (Bool-cases (ltb 0 body_size)) [
    | inl some_body ↦
        let text : HeaderValue = record { text = Numbers.to_string body_size } in
        let one : maps.get_all Name.content_length
              (append_all (others headers) (maps.append Name.content_length text maps.empty))
            ≡ text ∷ [] =
          get_all-others headers (maps.append Name.content_length text maps.empty)
          ∙ maps.get_all-append Name.content_length Name.content_length text maps.empty
          ∙ ap (λ l. l ++ (text ∷ [])) (maps.get_all-empty Name.content_length) in
        rw (some_body, one)
          (ground
            (arith, parse-to_string 0xffff_ffff_ffff_ffff body_size (omega arith) (omega arith)))
    | inr no_body ↦
        let none_there : maps.get_all Name.content_length (append_all (others headers) maps.empty)
            ≡ [] =
          get_all-others headers maps.empty ∙ maps.get_all-empty Name.content_length in
        rw (no_body, none_there) refl
  ]
