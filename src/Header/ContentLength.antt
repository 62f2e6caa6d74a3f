-- ===== src/Header/ContentLength.antt =====
-- rtsp-2/src/header/types/content_length.rs; `usize` has 64 bits.
use rtsp_rs.Prelude.{ℕ, [], ◌∷◌, List, ltb, if◌then◌else◌, Option, none, some, Result, ok, err}
use rtsp_rs.Header.Value.{HeaderValue}
use rtsp_rs.Header.Numbers.{IntErrorKind, parse, to_string}

abbrev pub max_content_length : ℕ
max_content_length = 9_999_999_999_999_999_999

-- The `usize` of a `ContentLength`.
abbrev pub ContentLength : Type 0
ContentLength = ℕ

pub data ContentLengthError : Type 0 where
  empty exceeds_maximum_length invalid_digit more_than_one_header overflow : ContentLengthError

unfoldable pub try_from : ℕ → Result ContentLength ContentLengthError
try_from value = if ltb max_content_length value then err exceeds_maximum_length else ok value

unfoldable pub from_int_error_kind : IntErrorKind → ContentLengthError
from_int_error_kind IntErrorKind.empty = empty
from_int_error_kind IntErrorKind.invalid_digit = invalid_digit
from_int_error_kind IntErrorKind.pos_overflow = overflow

decode_value : Result ℕ IntErrorKind → Result (Option ContentLength) ContentLengthError
decode_value (err kind) = err (from_int_error_kind kind)
decode_value (ok value) = elim (try_from value) [ ok length ↦ ok (some length) | err e ↦ err e ]

unfoldable pub decode : List HeaderValue → Result (Option ContentLength) ContentLengthError
unfolding decode_value try_from from_int_error_kind
decode [] = ok none
decode (value ∷ []) = decode_value (parse 0xffff_ffff_ffff_ffff value.text)
decode (value ∷ _ ∷ _) = err more_than_one_header

unfoldable pub encode : ContentLength → List HeaderValue
encode length = record { text = to_string length } ∷ []
