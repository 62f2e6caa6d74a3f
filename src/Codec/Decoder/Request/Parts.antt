-- ===== src/Codec/Decoder/Request/Parts.antt =====
-- rtsp-2/src/protocol/codec/decoder/request.rs: what each part of the decoder makes of a buffer it
-- makes of the buffer with more bytes behind, unless it fails.
use rtsp_rs.Prelude.{
  ℕ, ◌+◌, ◌≤◌, ◌≡◌, refl, ◌++◌, Bytes, length, drop, take-append, drop-append, length-append,
  length-drop, Option, none, some, Result, ltb, Bool-cases, inl, inr, arith, ltb→ge,
}
use rtsp_rs.Codec.Decoder.{complete, error, incomplete}
use rtsp_rs.Codec.Decoder.Search.{find_byte, find_byte-Found, Found}
use rtsp_rs.Codec.Decoder.Request.{
  Decoder, Part, decode_body, decode_method, decode_uri, decode_version,
}

-- The part at `buffer`, and the part at `buffer` with `later` behind it.
abbrev pub Extends :
    {Map Uri UriError : Type 0}
    → Decoder Map Uri UriError
    → Bytes
    → Bytes
    → Part Map Uri UriError
    → Part Map Uri UriError
    → Type 0
Extends d buffer later (complete _, d', rest) u = u ≡ (complete tt, d', rest ++ later)
Extends d buffer later (incomplete, d', rest) u = (d' ≡ d) × (rest ≡ buffer)
Extends d buffer later (error e, d', rest) u = Unit {0}

module _ {Map Uri UriError : Type 0} (d : Decoder Map Uri UriError) (buffer later : Bytes) where
  pub decode_body-Extends :
      Extends d buffer later (decode_body d buffer) (decode_body d (buffer ++ later))
  unfolding decode_body
  decode_body-Extends = elim (Bool-cases (ltb (length buffer) d.content_length)) [
    | inl short ↦ rw short (refl, refl)
    | inr enough ↦
        let le : d.content_length ≤ length buffer = ltb→ge _ _ enough in
        rw enough (
          ground (
            arith,
            length-append buffer later,
            take-append d.content_length buffer later le,
            drop-append d.content_length buffer later le,
          ))
  ]

  pub decode_version-Extends :
      Extends d buffer later (decode_version d buffer) (decode_version d (buffer ++ later))
  unfolding decode_version
  decode_version-Extends = elim (Bool-cases (ltb (length buffer) 10)) [
    | inl short ↦ rw short (refl, refl)
    | inr enough ↦
        let le : 10 ≤ length buffer = ltb→ge _ _ enough in
        rw enough (
          ground (
            arith,
            length-append buffer later,
            take-append 8 buffer later (omega arith),
            drop-append 8 buffer later (omega arith),
            take-append 2 (drop 8 buffer) later (omega (arith, length-drop 8 buffer)),
            drop-append 10 buffer later (omega arith),
          ))
  ]

  decode_method_hit :
      (o : Option ℕ)
      → find_byte b' ' (d.config.method_max_length + 1) buffer ≡ o
      → Found b' ' (d.config.method_max_length + 1) buffer later o
      → Extends d buffer later (decode_method d buffer) (decode_method d (buffer ++ later))
  unfolding decode_method
  decode_method_hit none e f = ground arith
  decode_method_hit (some i) e f = ground (
    arith,
    take-append i buffer later (omega arith),
    drop-append (i + 1) buffer later (omega arith),
  )

  pub decode_method-Extends :
      Extends d buffer later (decode_method d buffer) (decode_method d (buffer ++ later))
  decode_method-Extends = decode_method_hit _ refl (find_byte-Found _ _ buffer later)

  module _ (uri_try_from : Bytes → Result Uri UriError) where
    decode_uri_hit :
        (o : Option ℕ)
        → find_byte b' ' (d.config.uri_max_length + 1) buffer ≡ o
        → Found b' ' (d.config.uri_max_length + 1) buffer later o
        → Extends d buffer later
            (decode_uri uri_try_from d buffer)
            (decode_uri uri_try_from d (buffer ++ later))
    unfolding decode_uri
    decode_uri_hit none e f = ground arith
    decode_uri_hit (some i) e f = ground (
      arith,
      take-append i buffer later (omega arith),
      drop-append (i + 1) buffer later (omega arith),
    )

    pub decode_uri-Extends :
        Extends d buffer later
          (decode_uri uri_try_from d buffer)
          (decode_uri uri_try_from d (buffer ++ later))
    decode_uri-Extends = decode_uri_hit _ refl (find_byte-Found _ _ buffer later)
