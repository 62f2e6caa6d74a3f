-- ===== src/Syntax.antt =====
-- rtsp-2/src/syntax.rs: the bytes of a token, and the removal of white space.
pub mod Tokens
pub mod Trimming
pub mod Whitespace
use rtsp_rs.Prelude.{
  ◌++◌, ℕ, zero, suc, ◌-◌, Bool, true, false, not, ◌&&◌, ◌||◌, List, [], ◌∷◌, ◌==◌, if◌then◌else◌,
  Bytes, length, take, drop, get_elem?, Option, none, some, starts_with, bytes,
}

-- `TOKEN_CHAR_MAP`: an entry is 0 where its byte is in no token.
abbrev pub token_char_map : Bytes
token_char_map =
    zeros 33
    ++ bytes "!"
    ++ zeros 1
    ++ bytes "#$%&'"
    ++ zeros 2
    ++ bytes "*+"
    ++ zeros 1
    ++ bytes "-."
    ++ zeros 1
    ++ bytes "0123456789"
    ++ zeros 7
    ++ bytes "ABCDEFGHIJKLMNOPQRSTUVWXYZ"
    ++ zeros 3
    ++ bytes "^_"
    ++ zeros 1
    ++ bytes "abcdefghijklmnopqrstuvwxyz"
    ++ zeros 1
    ++ bytes "|"
    ++ zeros 1
    ++ bytes "~"
    ++ zeros 129
  where
    zeros : ℕ → Bytes
    zeros zero = []
    zeros (suc n) = 0 ∷ zeros n

-- `TOKEN_CHAR_MAP[byte as usize] != 0`.
unfoldable pub is_token_char : ℕ → Bool
is_token_char c = elim (get_elem? token_char_map c) [ none ↦ false | some entry ↦ not (entry == 0) ]

-- The loop of `is_token`.
unfoldable pub all_token_chars : Bytes → Bool
all_token_chars [] = true
all_token_chars (c ∷ cs) = is_token_char c && all_token_chars cs

unfoldable pub is_token : Bytes → Bool
unfolding all_token_chars
is_token [] = false
is_token (c ∷ cs) = all_token_chars (c ∷ cs)

abbrev pub is_blank : ℕ → Bool
is_blank c = c == b' ' || c == b'\t'

-- The body of the loop of `trim_bytes_whitespace_left`: a line break, then one blank.
pub strip_line_break : Bytes → Bytes
strip_line_break value = if starts_with (bytes "\r\n") value then drop 2 value else value

pub strip_blank : Bytes → Bytes
strip_blank [] = []
strip_blank (c ∷ cs) = if is_blank c then cs else c ∷ cs

-- `while value.len() != old`, on fuel.
trim_left_loop : ℕ → ℕ → Bytes → Bytes
unfolding strip_line_break strip_blank
trim_left_loop zero old value = value
trim_left_loop (suc fuel) old value = elim (length value == old) [
  | true ↦ value
  | false ↦ trim_left_loop fuel (length value) (strip_blank (strip_line_break value))
]

pub trim_bytes_whitespace_left : Bytes → Bytes
unfolding trim_left_loop
trim_bytes_whitespace_left value = trim_left_loop (suc (suc (length value))) 0 value
