-- ===== src/Codec/Roundtrip/Digits.antt =====
-- rtsp-2/src/protocol/codec: the decimal numbers that the encoders write are header values.
use rtsp_rs.Prelude.{
  ℕ, zero, suc, ◌+◌, ◌/◌, ◌%◌, ◌≤◌, ◌≡◌, refl, Bool, true, ◌&&◌, [], ◌∷◌, ◌==◌, Bytes, length, some,
  ok, all, leb, arith, Bool-cases, inl, inr,
}
use rtsp_rs.Header.Name
use rtsp_rs.Header.Name.{canonical_name}
use rtsp_rs.Header.Name.Cases.{try_from_content_length}
use rtsp_rs.Header.Numbers.{digits, to_string}
use rtsp_rs.Header.Value
use rtsp_rs.Header.Value.{utf8_chars, start, check_chars, any, expect}
use rtsp_rs.Codec.Roundtrip.Lines.{IsWritable}
use rtsp_rs.Codec.Roundtrip.Printed.{lacks, no_leading_blank}

abbrev pub is_digit : ℕ → Bool
is_digit c = leb b'0' c && leb c b'9'

digits-all :
    (fuel n : ℕ) (rest : Bytes)
    → all is_digit rest ≡ true
    → all is_digit (digits fuel n rest) ≡ true
unfolding digits
digits-all zero n rest h = h
digits-all (suc fuel) n rest h =
    let here : all is_digit ((b'0' + n % 10) ∷ rest) ≡ true = ground arith in
    elim (Bool-cases (n / 10 == 0)) [
      | inl last ↦ rw last here
      | inr more ↦ rw more (digits-all fuel (n / 10) ((b'0' + n % 10) ∷ rest) here)
    ]

length-digits-le : (fuel n : ℕ) (rest : Bytes) → length (digits fuel n rest) ≤ fuel + length rest
unfolding digits
length-digits-le zero n rest = omega arith
length-digits-le (suc fuel) n rest = elim (Bool-cases (n / 10 == 0)) [
  | inl last ↦ rw last (omega arith)
  | inr more ↦ rw more (omega (arith, length-digits-le fuel (n / 10) ((b'0' + n % 10) ∷ rest)))
]

pub to_string-all : (n : ℕ) → all is_digit (to_string n) ≡ true
unfolding to_string
to_string-all n = digits-all 20 n [] refl

pub length-to_string-le : (n : ℕ) → length (to_string n) ≤ 20
unfolding to_string
length-to_string-le n = omega (arith, length-digits-le 20 n [])

-- Digits are characters that a header value has.
digits-utf8_chars : (cs : Bytes) → all is_digit cs ≡ true → utf8_chars start cs ≡ some cs
unfolding utf8_chars
digits-utf8_chars [] h = refl
digits-utf8_chars (c ∷ cs) h = ground (arith, digits-utf8_chars cs)

digits-check_chars : (cs : Bytes) → all is_digit cs ≡ true → check_chars any cs ≡ ok tt
unfolding check_chars expect
digits-check_chars [] h = refl
digits-check_chars (c ∷ cs) h = ground (arith, digits-check_chars cs)

digits-try_from :
    (cs : Bytes) → all is_digit cs ≡ true → Value.try_from cs ≡ ok (record { text = cs })
unfolding Value.try_from
digits-try_from cs h = ground (arith, digits-utf8_chars cs h, digits-check_chars cs h)

digits-lacks : (cs : Bytes) → all is_digit cs ≡ true → lacks b'\r' cs ≡ true
digits-lacks [] h = refl
digits-lacks (c ∷ cs) h = ground (arith, digits-lacks cs)

digits-no_leading_blank : (cs : Bytes) → all is_digit cs ≡ true → no_leading_blank cs ≡ true
digits-no_leading_blank [] h = refl
digits-no_leading_blank (c ∷ cs) h = ground arith

-- The header `Content-Length` of any body can be written.
pub content_length-IsWritable :
    (name_max value_max n : ℕ)
    → 14 ≤ name_max
    → 21 ≤ value_max
    → IsWritable name_max value_max Name.content_length (record { text = to_string n })
unfolding canonical_name
content_length-IsWritable name_max value_max n hn hv = record {
  name_parses = try_from_content_length;
  name_le = hn;
  value_parses = digits-try_from (to_string n) (to_string-all n);
  one_line = digits-lacks (to_string n) (to_string-all n);
  unindented = digits-no_leading_blank (to_string n) (to_string-all n);
  value_le = omega (arith, length-to_string-le n);
}
