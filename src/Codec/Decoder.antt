-- ===== src/Codec/Decoder.antt =====
-- rtsp-2/src/protocol/codec/decoder/mod.rs: the result of a decoder and the trimming of headers.
pub mod Loop
pub mod Search
pub mod Headers
pub mod Steps
pub mod Request
pub mod Response
use rtsp_rs.Prelude.{
  ℕ, zero, suc, ◌+◌, Bool, true, false, ◌&&◌, [], ◌∷◌, ◌==◌, if◌then◌else◌, Bytes, bytes, length,
  take, drop, get_or, starts_with, Result, ok, err,
}
use rtsp_rs.Syntax.{is_blank}

pub data DecodeResult (R E : Type 0) : Type 0 where
  complete : R → DecodeResult R E
  error : E → DecodeResult R E
  incomplete : DecodeResult R E

-- `map` and `map_error`.
abbrev pub map : {A B E : Type 0} → (A → B) → DecodeResult A E → DecodeResult B E
map f (complete value) = complete (f value)
map f (error e) = error e
map f incomplete = incomplete

abbrev pub map_error : {A E F : Type 0} → (E → F) → DecodeResult A E → DecodeResult A F
map_error f (complete value) = complete value
map_error f (error e) = error (f e)
map_error f incomplete = incomplete

abbrev pub from_result : {A E : Type 0} → Result A E → DecodeResult A E
from_result (ok value) = complete value
from_result (err e) = error e

abbrev pub body_default_max_length : ℕ
body_default_max_length = 65536

abbrev pub header_default_max_count : ℕ
header_default_max_count = 64

abbrev pub header_name_default_max_length : ℕ
header_name_default_max_length = 100

abbrev pub header_value_default_max_length : ℕ
header_value_default_max_length = 2000

abbrev pub method_default_max_length : ℕ
method_default_max_length = 50

abbrev pub reason_phrase_default_max_length : ℕ
reason_phrase_default_max_length = 50

abbrev pub uri_default_max_length : ℕ
uri_default_max_length = 2000

-- `while index > 0`: the index behind the last byte that is no blank.
unfoldable pub trim_end : Bytes → ℕ → ℕ
trim_end name zero = 0
trim_end name (suc index) =
    let shorter = trim_end name index in
    if is_blank (get_or name index 0) then shorter else suc index

unfoldable pub trim_header_name : Bytes → Bytes
unfolding trim_end
trim_header_name name = take (trim_end name (length name)) name

-- How many blanks the loop of `trim_header_value` passes.
unfoldable pub leading_blanks : Bytes → ℕ
leading_blanks [] = 0
leading_blanks (c ∷ cs) = let more = suc (leading_blanks cs) in if is_blank c then more else 0

unfoldable pub trim_header_value : Bytes → Bytes
unfolding leading_blanks starts_with
trim_header_value value =
    let has_initial_linebreak = starts_with (bytes "\r\n") value in
    let start : ℕ = if has_initial_linebreak then 2 else 0 in
    let index = start + leading_blanks (drop start value) in
    if has_initial_linebreak && index == 2 then value else drop index value
