-- ===== src/Codec/Decoder/Headers.antt =====
-- rtsp-2/src/protocol/codec/decoder/request.rs and response.rs: the delimiters of a header line, which
-- both decoders look for in the same way. `max_length` is the limit of the configuration and one.
use rtsp_rs.Prelude.{
  ℕ, zero, suc, ◌+◌, ◌≤◌, ◌<◌, ◌≡◌, refl, ◌++◌, Bytes, length, take, take-append, length-take,
  Option, none, some, Bool-cases, inl, inr, arith, true, false, starts_with, bytes, [], ◌∷◌, leb,
  if◌then◌else◌,
}
use rtsp_rs.Codec.Decoder.{DecodeResult, complete, error, incomplete}
use rtsp_rs.Codec.Decoder.Search.{
  find_byte, find_byte-Found, Found, ValueEnd, ends_at, at_end_of_buffer, not_found, find_value_end,
  find_value_end-Ends, Ends,
}

module _ {E : Type 0} where
  unfoldable pub find_header_name : ℕ → E → Bytes → DecodeResult (Option Bytes) E
  find_header_name max_length too_long buffer =
      if starts_with (bytes "\r\n") buffer
      then complete none
      else elim (find_byte b':' max_length buffer) [
        | some index ↦ complete (some (take index buffer))
        | none ↦ if leb max_length (length buffer) then error too_long else incomplete
      ]

  unfoldable pub find_header_value : ℕ → E → Bytes → DecodeResult Bytes E
  find_header_value max_length too_long buffer = elim (find_value_end max_length 0 buffer) [
    | ends_at index ↦ complete (take index buffer)
    | at_end_of_buffer ↦ incomplete
    | not_found ↦ if leb max_length (length buffer) then error too_long else incomplete
  ]

abbrev pub NameExtends :
    {E : Type 0} → Bytes → DecodeResult (Option Bytes) E → DecodeResult (Option Bytes) E → Type 0
NameExtends buffer (complete none) u = (u ≡ complete none) × (2 ≤ length buffer)
NameExtends buffer (complete (some name)) u =
    (u ≡ complete (some name)) × (length name < length buffer)
NameExtends buffer _ u = Unit {0}

abbrev pub ValueExtends :
    {E : Type 0} → Bytes → DecodeResult Bytes E → DecodeResult Bytes E → Type 0
ValueExtends buffer (complete value) u = (u ≡ complete value) × (length value + 2 ≤ length buffer)
ValueExtends buffer _ u = Unit {0}

starts_with-append_true :
    (buffer later : Bytes)
    → starts_with (bytes "\r\n") buffer ≡ true
    → (starts_with (bytes "\r\n") (buffer ++ later) ≡ true) × (2 ≤ length buffer)
unfolding starts_with
starts_with-append_true [] later h = cc
starts_with-append_true (a ∷ []) later h = ground arith
starts_with-append_true (a ∷ b ∷ t) later h = (h, omega arith)

-- One byte alone may be the first of a line break, but then there is no colon.
starts_with-append_false :
    (max : ℕ) (buffer later : Bytes) {i : ℕ}
    → starts_with (bytes "\r\n") buffer ≡ false
    → find_byte b':' max buffer ≡ some i
    → starts_with (bytes "\r\n") (buffer ++ later) ≡ false
unfolding starts_with find_byte
starts_with-append_false zero buffer later h f = cc
starts_with-append_false (suc max) [] later h f = cc
starts_with-append_false (suc zero) (a ∷ []) later h f = ground arith
starts_with-append_false (suc (suc max)) (a ∷ []) later h f = ground arith
starts_with-append_false (suc max) (a ∷ b ∷ t) later h f = h

module _ (E : Type 0) (max_length : ℕ) (too_long : E) (buffer later : Bytes) where
  abbrev names : Bytes → DecodeResult (Option Bytes) E
  names = find_header_name max_length too_long

  no_line_break :
      (o : Option ℕ)
      → find_byte b':' max_length buffer ≡ o
      → Found b':' max_length buffer later o
      → starts_with (bytes "\r\n") buffer ≡ false
      → NameExtends buffer (names buffer) (names (buffer ++ later))
  unfolding find_header_name
  no_line_break none e f h = ground arith
  no_line_break (some i) e f h = ground (
    arith,
    starts_with-append_false max_length buffer later {i = i} h e,
    take-append i buffer later (omega arith),
    length-take i buffer (omega arith),
  )

  pub find_header_name-Extends : NameExtends buffer (names buffer) (names (buffer ++ later))
  find_header_name-Extends = elim (Bool-cases (starts_with (bytes "\r\n") buffer)) [
    | inl h ↦ unfold find_header_name in ground (arith, starts_with-append_true buffer later h)
    | inr h ↦ no_line_break _ refl (find_byte-Found _ _ buffer later) h
  ]

  abbrev values : Bytes → DecodeResult Bytes E
  values = find_header_value max_length too_long

  value_found :
      (r : ValueEnd)
      → find_value_end max_length 0 buffer ≡ r
      → Ends max_length 0 buffer later r
      → ValueExtends buffer (values buffer) (values (buffer ++ later))
  unfolding find_header_value
  value_found not_found e f = ground arith
  value_found at_end_of_buffer e f = ground arith
  value_found (ends_at i) e f =
      ground (arith, take-append i buffer later (omega arith), length-take i buffer (omega arith))

  pub find_header_value-Extends : ValueExtends buffer (values buffer) (values (buffer ++ later))
  find_header_value-Extends = value_found _ refl (find_value_end-Ends _ 0 buffer later)
