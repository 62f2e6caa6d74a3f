-- ===== src/Codec/Decoder/Request/Boundary.antt =====
-- rtsp-2/src/protocol/codec/decoder/request.rs: `decode_header_value` at the longest value that the
-- configuration allows.
use rtsp_rs.Prelude.{
  ℕ, suc, ◌+◌, ◌≡◌, refl, ap, ◌∙◌, not, Bool, true, false, [], ◌∷◌, ◌++◌, ◌==◌, Bytes, length,
  length-append, take-append, take_all, all, arith,
}
use rtsp_rs.Syntax.{is_blank}
use rtsp_rs.Codec.Decoder.{complete, error}
use rtsp_rs.Codec.Decoder.Headers.{find_header_value}
use rtsp_rs.Codec.Decoder.Search.{find_value_end, ends_at, not_found}
use rtsp_rs.Codec.Decoder.Request.{header_value_too_long, decode_header_value}
use rtsp_rs.Codec.Decoder.Request.Limits.{Config}

abbrev pub no_return : Bytes → Bool
no_return = all (λ c. not (c == b'\r'))

cut :
    (value : Bytes) (index : ℕ)
    → no_return value ≡ true
    → find_value_end (suc (length value)) index (value ++ (b'\r' ∷ [])) ≡ not_found
unfolding find_value_end
cut [] index h = refl
cut (a ∷ []) index h = ground arith
cut (a ∷ b ∷ value) index h = ground (arith, cut (b ∷ value) (index + 1))

whole :
    (value : Bytes) (index c : ℕ) (rest : Bytes)
    → no_return value ≡ true
    → is_blank c ≡ false
    → find_value_end (suc (length value)) index (value ++ (b'\r' ∷ b'\n' ∷ c ∷ rest))
      ≡ ends_at (index + length value)
unfolding find_value_end
whole [] index c rest h k = ground arith
whole (a ∷ []) index c rest h k = ground arith
whole (a ∷ b ∷ value) index c rest h k = ground (arith, whole (b ∷ value) (index + 1) c rest)

-- A value of the greatest length is taken when its line break and the byte behind are there. When the
-- buffer ends between the two bytes of the line break, the same value is refused as too long.
pub decode_header_value_at_limit :
    (UriError : Type 0) (config : Config) (value : Bytes) (c : ℕ) (rest : Bytes)
    → no_return value ≡ true
    → length value ≡ config.header_value_max_length
    → is_blank c ≡ false
    → (decode_header_value {UriError = UriError} config (value ++ (b'\r' ∷ b'\n' ∷ c ∷ rest))
        ≡ complete value)
      × (decode_header_value {UriError = UriError} config (value ++ (b'\r' ∷ []))
          ≡ error header_value_too_long)
unfolding decode_header_value
decode_header_value_at_limit UriError config value c rest h e k =
    let more : config.header_value_max_length + 1 ≡ suc (length value) = omega arith in
    let no_offset : 0 + length value ≡ length value = omega arith in
    (
      rw (decode_header_value, find_header_value, more, whole value 0 c rest h k, no_offset)
          (ap complete (take-append (length value) value _ (omega arith) ∙ take_all value)),
      rw (decode_header_value, find_header_value, more, cut value 0 h)
          (ground (arith, length-append value (b'\r' ∷ []))),
    )
