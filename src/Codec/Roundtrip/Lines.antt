-- ===== src/Codec/Roundtrip/Lines.antt =====
-- rtsp-2/src/protocol/codec: a header line that an encoder writes, and the parts that the decoders
-- find.
use rtsp_rs.Prelude.{
  ℕ, suc, ◌+◌, ◌≤◌, ◌≡◌, ap, ◌∙◌, true, ◌∷◌, ◌++◌, append_assoc, Bytes, length, some, ok, arith,
}
use rtsp_rs.Header.Name
use rtsp_rs.Header.Name.{HeaderName, canonical_name}
use rtsp_rs.Header.Name.Cases.{is_token-canonical_name}
use rtsp_rs.Header.Value
use rtsp_rs.Header.Value.{HeaderValue}
use rtsp_rs.Syntax.{is_token}
use rtsp_rs.Codec.Decoder.{complete, trim_header_name, trim_header_value}
use rtsp_rs.Codec.Decoder.Headers.{find_header_name, find_header_value}
use rtsp_rs.Codec.Encoder.{header_line}
use rtsp_rs.Codec.Roundtrip.Printed.{
  lacks, starts_nonblank, no_leading_blank, take-length, find_byte-printed, find_value_end-printed,
  trim_header_name-printed, trim_header_value-printed,
}
use rtsp_rs.Codec.Roundtrip.Tokens.{is_token-lacks_colon, is_token-no_blank, is_token-starts_with}

-- A header that is written on one line and read as it is, within limits for its name and its value. The
-- decoder counts the space in front of the value.
pub record IsWritable (name_max value_max : ℕ) (name : HeaderName) (value : HeaderValue)
    : Type 0 where
  pub name_parses : Name.try_from (canonical_name name) ≡ ok name
  pub name_le : length (canonical_name name) ≤ name_max
  pub value_parses : Value.try_from value.text ≡ ok value
  pub one_line : lacks b'\r' value.text ≡ true
  pub unindented : no_leading_blank value.text ≡ true
  pub value_le : length value.text + 1 ≤ value_max

pub header_line-append :
    (name : HeaderName) (text rest : Bytes)
    → header_line name text ++ rest
      ≡ canonical_name name ++ (b':' ∷ ((b' ' ∷ text) ++ (b'\r' ∷ b'\n' ∷ rest)))
unfolding header_line
header_line-append name text rest = simp (append_assoc)

module _ {E : Type 0} (too_long : E) where
  pub find_header_name-printed :
      (max : ℕ) (name rest : Bytes)
      → is_token name ≡ true
      → length name ≤ max
      → find_header_name (max + 1) too_long (name ++ (b':' ∷ rest)) ≡ complete (some name)
  unfolding find_header_name
  find_header_name-printed max name rest token le =
      let more : max + 1 ≡ suc max = omega arith in
      rw more (
        ground (
          arith,
          is_token-starts_with name (b':' ∷ rest) token,
          find_byte-printed b':' max name rest (is_token-lacks_colon name token) le,
          take-length name (b':' ∷ rest),
        ))

  pub find_header_value-printed :
      (max : ℕ) (value rest : Bytes)
      → lacks b'\r' value ≡ true
      → length value ≤ max
      → starts_nonblank rest ≡ true
      → find_header_value (max + 1) too_long (value ++ (b'\r' ∷ b'\n' ∷ rest)) ≡ complete value
  unfolding find_header_value
  find_header_value-printed max value rest one_line le next =
      let more : max + 1 ≡ suc max = omega arith in
      let none_before : 0 + length value ≡ length value = omega arith in
      rw more (
        ground (
          arith,
          find_value_end-printed max 0 value rest one_line le next,
          take-length value (b'\r' ∷ b'\n' ∷ rest),
        ))

module _ {name_max value_max : ℕ} {name : HeaderName} {value : HeaderValue}
    (w : IsWritable name_max value_max name value) where
  pub name_read : Name.try_from (trim_header_name (canonical_name name)) ≡ ok name
  name_read =
      ap Name.try_from (
        trim_header_name-printed (canonical_name name)
          (is_token-no_blank _ (is_token-canonical_name _ name w.name_parses)))
      ∙ w.name_parses

  pub value_read : Value.try_from (trim_header_value (b' ' ∷ value.text)) ≡ ok value
  value_read =
      ap Value.try_from (trim_header_value-printed value.text w.unindented) ∙ w.value_parses
