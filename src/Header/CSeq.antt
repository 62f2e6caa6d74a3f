-- ===== src/Header/CSeq.antt =====
-- rtsp-2/src/header/types/cseq.rs: sequence numbers and their arithmetic.
pub mod Arithmetic
use rtsp_rs.Prelude.{
  ℕ, ◌+◌, ◌-◌, ◌%◌, ◌^◌, [], ◌∷◌, List, ltb, leb, if◌then◌else◌, Option, none, some, Result, ok,
  err,
}
use rtsp_rs.Header.Value.{HeaderValue}
use rtsp_rs.Header.Numbers.{IntErrorKind, parse, to_string}

abbrev pub max_cseq : ℕ
max_cseq = 999_999_999

-- The `u32` of a `CSeq`.
abbrev pub CSeq : Type 0
CSeq = ℕ

pub data CSeqError : Type 0 where
  empty exceeds_maximum_length invalid_digit more_than_one_header overflow : CSeqError

unfoldable pub wrapping_increment : CSeq → CSeq
wrapping_increment c = (c + 1) % 2 ^ 32 % (max_cseq + 1)

unfoldable pub add : CSeq → CSeq → CSeq
add a b = (a + b) % 2 ^ 32 % (max_cseq + 1)

unfoldable pub sub : CSeq → CSeq → CSeq
sub a b = if leb b a then a - b else max_cseq - (b - a)

unfoldable pub try_from : ℕ → Result CSeq CSeqError
try_from value = if ltb max_cseq value then err exceeds_maximum_length else ok value

unfoldable pub from_int_error_kind : IntErrorKind → CSeqError
from_int_error_kind IntErrorKind.empty = empty
from_int_error_kind IntErrorKind.invalid_digit = invalid_digit
from_int_error_kind IntErrorKind.pos_overflow = overflow

-- `parse::<u32>()` and the checks behind it.
decode_value : Result ℕ IntErrorKind → Result (Option CSeq) CSeqError
decode_value (err kind) = err (from_int_error_kind kind)
decode_value (ok value) = elim (try_from value) [ ok cseq ↦ ok (some cseq) | err e ↦ err e ]

unfoldable pub decode : List HeaderValue → Result (Option CSeq) CSeqError
unfolding decode_value try_from from_int_error_kind
decode [] = ok none
decode (value ∷ []) = decode_value (parse 0xffff_ffff value.text)
decode (value ∷ _ ∷ _) = err more_than_one_header

unfoldable pub encode : CSeq → List HeaderValue
encode cseq = record { text = to_string cseq } ∷ []
