-- ===== src/Codec/Decoder/Response/Boundary.antt =====
-- rtsp-2/src/protocol/codec/decoder/response.rs: `decode_reason_phrase` at a reason phrase that is one
-- byte longer than the configuration allows.
use rtsp_rs.Prelude.{
  ℕ, suc, ◌+◌, ◌≡◌, refl, ap, ◌∙◌, true, some, none, [], ◌∷◌, ◌++◌, Bytes, length, drop,
  length-append, take-append, take_all, ok, arith,
}
use rtsp_rs.Reason
use rtsp_rs.Codec.Decoder.{complete, error}
use rtsp_rs.Codec.Decoder.Request.Boundary.{no_return}
use rtsp_rs.Codec.Decoder.Search.{find_line_break}
use rtsp_rs.Codec.Decoder.Response.{
  Decoder, at_header, reason_phrase_too_long, decode_reason_phrase,
}

cut :
    (value : Bytes)
    → no_return value ≡ true
    → find_line_break (suc (length value)) (value ++ (b'\r' ∷ [])) ≡ none
unfolding find_line_break
cut [] h = refl
cut (a ∷ []) h = ground arith
cut (a ∷ b ∷ value) h = ground (arith, cut (b ∷ value))

whole :
    (value rest : Bytes)
    → no_return value ≡ true
    → find_line_break (suc (length value)) (value ++ (b'\r' ∷ b'\n' ∷ rest)) ≡ some (length value)
unfolding find_line_break
whole [] rest h = refl
whole (a ∷ []) rest h = ground arith
whole (a ∷ b ∷ value) rest h = ground (arith, whole (b ∷ value) rest)

drop_all : (value rest : Bytes) (n : ℕ) → drop (length value + n) (value ++ rest) ≡ drop n rest
drop_all [] rest n = ap (λ (k : ℕ). drop k rest) (omega arith)
drop_all (a ∷ value) rest n =
    ap (λ (k : ℕ). drop k (a ∷ (value ++ rest))) {y = suc (length value + n)} (omega arith)
    ∙ drop_all value rest n

-- A reason phrase of one byte more than the configured limit is taken when its line break is there.
-- When the buffer ends between the two bytes of the line break, the same reason phrase is refused as
-- too long.
pub decode_reason_phrase_over_limit :
    {Map : Type 0} (d : Decoder Map) (value rest : Bytes)
    → no_return value ≡ true
    → length value ≡ d.config.reason_phrase_max_length + 1
    → Reason.try_from value ≡ ok value
    → (decode_reason_phrase d (value ++ (b'\r' ∷ b'\n' ∷ rest)) ≡ (
      complete tt,
      record d {
        state = at_header;
        builder = record (d.builder) { custom_reason_phrase = some value };
      },
      rest,
    ))
      × (decode_reason_phrase d (value ++ (b'\r' ∷ []))
          ≡ (error reason_phrase_too_long, d, value ++ (b'\r' ∷ [])))
unfolding decode_reason_phrase
decode_reason_phrase_over_limit d value rest h e valid =
    let more : d.config.reason_phrase_max_length + 2 ≡ suc (length value) = omega arith in
    let taken =
      take-append (length value) value (b'\r' ∷ b'\n' ∷ rest) (omega arith) ∙ take_all value in
    (
      ground (arith, whole value rest h, drop_all value (b'\r' ∷ b'\n' ∷ rest) 2, taken),
      ground (arith, cut value h, length-append value (b'\r' ∷ [])),
    )
