-- ===== src/Codec/Decoder/Response/Parts.antt =====
-- rtsp-2/src/protocol/codec/decoder/response.rs: each method of the decoder takes bytes from the front
-- of the buffer, and takes the same with more bytes behind.
use rtsp_rs.Prelude.{
  ℕ, ◌+◌, ◌≤◌, ◌<◌, ◌≡◌, refl, ◌++◌, Bytes, length, drop, take-append, drop-append, length-append,
  length-drop, get_or-append, Option, none, some, ltb, Bool-cases, inl, inr, arith, ltb→ge,
  IsSuffix, IsSuffix-refl, IsSuffix-drop, IsSuffix-trans,
}
use rtsp_rs.Header.Map.{HeaderMaps}
use rtsp_rs.Codec.Decoder.{DecodeResult, complete, error, incomplete}
use rtsp_rs.Codec.Decoder.Headers.{
  NameExtends, ValueExtends, find_header_name-Extends, find_header_value-Extends,
}
use rtsp_rs.Codec.Decoder.Search.{find_line_break, find_line_break-LineFound, LineFound}
use rtsp_rs.Codec.Decoder.Steps
use rtsp_rs.Codec.Decoder.Response.{
  DecodeError, header_name_too_long, header_value_too_long, DecodeState, at_body, at_end, at_error,
  at_header, at_reason_phrase, at_status_code, at_version, Decoder, Part, decode_body,
  decode_reason_phrase, decode_status_code, decode_version, decode_header_name, decode_header_value,
  append_header, decode_header_line, end_of_headers, decode_header,
}

-- The turns that take no byte: that of an empty body, and the last.
abbrev pub state_rank : DecodeState → ℕ
state_rank at_end = 0
state_rank (at_error e) = 0
state_rank at_body = 1
state_rank _ = 2

pub state_rank-le : (s : DecodeState) → state_rank s ≤ 2
state_rank-le at_end = omega arith
state_rank-le at_body = omega arith
state_rank-le (at_error e) = omega arith
state_rank-le _ = omega arith

abbrev pub rank : {Map : Type 0} → Decoder Map → ℕ
rank d = state_rank d.state

abbrev pub Consumes : {Map : Type 0} → Decoder Map → Bytes → Bytes → Part Map → Part Map → Type 0
Consumes = Steps.Consumes rank

module _ {Map : Type 0} (d : Decoder Map) (buffer later : Bytes) where
  pub decode_body-Consumes :
      d.state ≡ at_body
      → Consumes d buffer later (decode_body d buffer) (decode_body d (buffer ++ later))
  unfolding decode_body
  decode_body-Consumes at = elim (Bool-cases (ltb (length buffer) d.content_length)) [
    | inl short ↦ rw short (refl, refl)
    | inr enough ↦
        let le : d.content_length ≤ length buffer = ltb→ge _ _ enough in
        rw enough (
          ground (
            arith,
            length-append buffer later,
            length-drop d.content_length buffer,
            take-append d.content_length buffer later le,
            drop-append d.content_length buffer later le,
            IsSuffix-drop d.content_length buffer,
          ))
  ]

  pub decode_version-Consumes :
      d.state ≡ at_version
      → Consumes d buffer later (decode_version d buffer) (decode_version d (buffer ++ later))
  unfolding decode_version
  decode_version-Consumes at = elim (Bool-cases (ltb (length buffer) 9)) [
    | inl short ↦ rw short (refl, refl)
    | inr enough ↦
        let le : 9 ≤ length buffer = ltb→ge _ _ enough in
        rw enough (
          ground (
            arith,
            length-append buffer later,
            length-drop 9 buffer,
            get_or-append buffer later 8 0 (omega arith),
            take-append 8 buffer later (omega arith),
            drop-append 9 buffer later (omega arith),
            IsSuffix-drop 9 buffer,
            IsSuffix-refl buffer,
          ))
  ]

  pub decode_status_code-Consumes :
      d.state ≡ at_status_code
      → Consumes d buffer later
          (decode_status_code d buffer)
          (decode_status_code d (buffer ++ later))
  unfolding decode_status_code
  decode_status_code-Consumes at = elim (Bool-cases (ltb (length buffer) 4)) [
    | inl short ↦ rw short (refl, refl)
    | inr enough ↦
        let le : 4 ≤ length buffer = ltb→ge _ _ enough in
        rw enough (
          ground (
            arith,
            length-append buffer later,
            length-drop 4 buffer,
            get_or-append buffer later 3 0 (omega arith),
            take-append 3 buffer later (omega arith),
            drop-append 4 buffer later (omega arith),
            IsSuffix-drop 4 buffer,
            IsSuffix-refl buffer,
          ))
  ]

  reason_phrase_hit :
      (o : Option ℕ)
      → d.state ≡ at_reason_phrase
      → find_line_break (d.config.reason_phrase_max_length + 2) buffer ≡ o
      → LineFound (d.config.reason_phrase_max_length + 2) buffer later o
      → Consumes d buffer later
          (decode_reason_phrase d buffer)
          (decode_reason_phrase d (buffer ++ later))
  unfolding decode_reason_phrase
  reason_phrase_hit none at e f = ground (arith, IsSuffix-refl buffer)
  reason_phrase_hit (some i) at e f = ground (
    arith,
    take-append i buffer later (omega arith),
    drop-append (i + 2) buffer later f.0,
    length-drop (i + 2) buffer,
    IsSuffix-drop (i + 2) buffer,
    IsSuffix-refl buffer,
  )

  pub decode_reason_phrase-Consumes :
      d.state ≡ at_reason_phrase
      → Consumes d buffer later
          (decode_reason_phrase d buffer)
          (decode_reason_phrase d (buffer ++ later))
  decode_reason_phrase-Consumes at =
      reason_phrase_hit _ at refl (find_line_break-LineFound _ buffer later)

  module _ (maps : HeaderMaps Map) (at : d.state ≡ at_header) where
    append_header-Consumes :
        (name value rest : Bytes)
        → length value + 2 ≤ length rest
        → IsSuffix rest buffer
        → length rest < length buffer
        → Consumes d buffer later
            (append_header maps name value rest d buffer)
            (append_header maps name value (rest ++ later) d (buffer ++ later))
    unfolding append_header
    append_header-Consumes name value rest h suffix less = ground (
      arith,
      drop-append (length value + 2) rest later h,
      length-drop (length value + 2) rest,
      IsSuffix-refl buffer,
      IsSuffix-trans (drop (length value + 2) rest) rest buffer
          (IsSuffix-drop (length value + 2) rest) suffix,
    )

    line_value :
        (name rest : Bytes) (r s : DecodeResult Bytes DecodeError)
        → decode_header_value d.config rest ≡ r
        → decode_header_value d.config (rest ++ later) ≡ s
        → ValueExtends rest r s
        → drop (length name + 1) buffer ≡ rest
        → drop (length name + 1) (buffer ++ later) ≡ rest ++ later
        → IsSuffix rest buffer
        → length rest < length buffer
        → Consumes d buffer later
            (decode_header_line maps name d buffer)
            (decode_header_line maps name d (buffer ++ later))
    line_value name rest (complete value) s e f h p q x l =
        unfold decode_header_line in
        ground (arith, append_header-Consumes name value rest h.1 x l, IsSuffix-refl buffer)
    line_value name rest (error e') s e f h p q x l =
        unfold decode_header_line in ground (arith, IsSuffix-refl buffer)
    line_value name rest incomplete s e f h p q x l =
        unfold decode_header_line in ground (arith, IsSuffix-refl buffer)

    decode_header_line-Consumes :
        (name : Bytes)
        → length name < length buffer
        → Consumes d buffer later
            (decode_header_line maps name d buffer)
            (decode_header_line maps name d (buffer ++ later))
    unfolding decode_header_value
    decode_header_line-Consumes name h =
        let rest = drop (length name + 1) buffer in
        line_value name rest _ _ refl refl
          (find_header_value-Extends DecodeError (d.config.header_value_max_length + 1)
            header_value_too_long rest later)
          refl (drop-append (length name + 1) buffer later (omega arith))
          (IsSuffix-drop (length name + 1) buffer)
          (omega (arith, length-drop (length name + 1) buffer))

    end_of_headers-Consumes :
        2 ≤ length buffer
        → Consumes d buffer later
            (end_of_headers maps d buffer)
            (end_of_headers maps d (buffer ++ later))
    unfolding end_of_headers
    end_of_headers-Consumes h =
        ground (arith, drop-append 2 buffer later h, length-drop 2 buffer, IsSuffix-drop 2 buffer)

    header_name_found :
        (r s : DecodeResult (Option Bytes) DecodeError)
        → decode_header_name d.config buffer ≡ r
        → decode_header_name d.config (buffer ++ later) ≡ s
        → NameExtends buffer r s
        → Consumes d buffer later
            (decode_header maps d buffer)
            (decode_header maps d (buffer ++ later))
    unfolding decode_header
    header_name_found (complete none) s e f h =
        rw (e, decode_header) (rw (f, h.0, decode_header) (end_of_headers-Consumes h.1))
    header_name_found (complete (some name)) s e f h =
        rw (e, decode_header) (rw (f, h.0, decode_header) (decode_header_line-Consumes name h.1))
    header_name_found (error e') s e f h = rw (e, decode_header) (IsSuffix-refl buffer)
    header_name_found incomplete s e f h = rw (e, decode_header) (refl, refl)

    pub decode_header-Consumes :
        Consumes d buffer later
          (decode_header maps d buffer)
          (decode_header maps d (buffer ++ later))
    unfolding decode_header_name
    decode_header-Consumes = header_name_found _ _ refl refl (
        find_header_name-Extends DecodeError (d.config.header_name_max_length + 1)
          header_name_too_long buffer later)
