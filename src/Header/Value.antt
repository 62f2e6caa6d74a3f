-- ===== src/Header/Value.antt =====
-- rtsp-2/src/header/value.rs: header values, their characters and their line breaks.
use mathlib.Core.Option
use rtsp_rs.Prelude.{
  ℕ, ◌+◌, ◌-◌, ◌*◌, ◌%◌, true, false, not, ◌&&◌, ◌||◌, List, [], ◌∷◌, ◌==◌, ltb, leb, if◌then◌else◌,
  Bytes, Option, none, some, Result, ok, err, ◌>>=◌,
}

-- `str::from_utf8`: between characters, or inside one with bytes left to read, the bounds of the
-- next byte, and the bits read so far.
pub data Utf8 : Type 0 where
  start : Utf8
  inside : ℕ → ℕ → ℕ → ℕ → Utf8

-- The first byte of a character of more than one byte.
utf8_lead : ℕ → Option Utf8
utf8_lead b =
    if ltb b 0xc2
    then none
    else if ltb b 0xe0
    then some (inside 1 0x80 0xbf (b % 32))
    else if b == 0xe0
    then some (inside 2 0xa0 0xbf (b % 16))
    else if b == 0xed
    then some (inside 2 0x80 0x9f (b % 16))
    else if ltb b 0xf0
    then some (inside 2 0x80 0xbf (b % 16))
    else if b == 0xf0
    then some (inside 3 0x90 0xbf (b % 8))
    else if ltb b 0xf4
    then some (inside 3 0x80 0xbf (b % 8))
    else if b == 0xf4
    then some (inside 3 0x80 0x8f (b % 8))
    else none

-- The characters of valid UTF-8, as code points.
unfoldable pub utf8_chars : Utf8 → Bytes → Option (List ℕ)
unfolding utf8_lead
utf8_chars start [] = some []
utf8_chars (inside left lo hi bits) [] = none
utf8_chars start (b ∷ bs) = elim (ltb b 0x80) [
  | true ↦ Option.map (◌∷◌ b) (utf8_chars start bs)
  | false ↦ elim (utf8_lead b) [ none ↦ none | some state ↦ utf8_chars state bs ]
]
utf8_chars (inside left lo hi bits) (b ∷ bs) = elim (leb lo b && leb b hi) [
  | true ↦ elim (ltb 1 left) [
    | true ↦ utf8_chars (inside (left - 1) 0x80 0xbf (bits * 64 + b % 64)) bs
    | false ↦ Option.map (◌∷◌ (bits * 64 + b % 64)) (utf8_chars start bs)
  ]
  | false ↦ none
]

-- The string of a value is kept as its UTF-8 bytes.
pub record HeaderValue : Type 0 where
  pub text : Bytes

pub data HeaderValueError : Type 0 where
  invalid_ascii invalid_line_break invalid_utf8 : HeaderValueError

pub data ExpectState : Type 0 where
  any lf space_or_tab : ExpectState

-- One turn of the loop over the characters.
unfoldable pub expect : ExpectState → ℕ → Result ExpectState HeaderValueError
expect any c =
    if ltb c 128
    then if c == b'\r'
      then ok lf
      else if (ltb c b' ' || ltb b'~' c) && not (c == b'\t')
      then err invalid_ascii
      else ok any
    else ok any
expect lf c = if c == b'\n' then ok space_or_tab else err invalid_line_break
expect space_or_tab c = if c == b' ' || c == b'\t' then ok any else err invalid_line_break

unfoldable pub check_chars : ExpectState → List ℕ → Result (Unit {0}) HeaderValueError
unfolding expect
check_chars any [] = ok tt
check_chars lf [] = err invalid_line_break
check_chars space_or_tab [] = err invalid_line_break
check_chars state (c ∷ cs) = do state' ← expect state c; check_chars state' cs

unfoldable pub try_from : Bytes → Result HeaderValue HeaderValueError
unfolding utf8_chars check_chars
try_from value = elim (utf8_chars start value) [
  | none ↦ err invalid_utf8
  | some chars ↦ do _ ← check_chars any chars; ok (record { text = value })
]
