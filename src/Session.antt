-- ===== src/Session.antt =====
-- rtsp-2/src/session.rs: session identifiers, which are their strings.
use rtsp_rs.Prelude.{
  true, ◌≡◌, arith, ℕ, Bool, ◌&&◌, ◌||◌, ◌==◌, leb, ltb, Bytes, length, all, Result, ok, err,
  if◌then◌else◌,
}

-- In seconds.
abbrev pub default_session_timeout : ℕ
default_session_timeout = 60

abbrev pub max_session_timeout : ℕ
max_session_timeout = 9_999_999_999_999_999_999

pub data SessionIdError : Type 0 where
  invalid_character too_long too_short : SessionIdError

-- `is_alphanumeric` of an ASCII character.
abbrev is_alphanumeric : ℕ → Bool
is_alphanumeric c =
    (leb b'0' c && leb c b'9') || (leb b'A' c && leb c b'Z') || (leb b'a' c && leb c b'z')

-- Not the bytes that the loop refuses.
unfoldable pub is_session_char : ℕ → Bool
is_session_char c =
    ltb c 128
    && (is_alphanumeric c || c == b'$' || c == b'-' || c == b'_' || c == b'.' || c == b'+')

-- `TryFrom<&[u8]>`, and that of `&str`.
unfoldable pub try_from : Bytes → Result Bytes SessionIdError
unfolding is_session_char
try_from value =
    if ltb (length value) 8
    then err too_short
    else if ltb 256 (length value)
    then err too_long
    else if all is_session_char value
    then ok value
    else err invalid_character

-- A session identifier has only such characters.
pub try_from-all :
    (value id : Bytes) → try_from value ≡ ok id → (id ≡ value) × (all is_session_char value ≡ true)
unfolding try_from
try_from-all value id h = ground arith
