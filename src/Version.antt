-- ===== src/Version.antt =====
-- rtsp-common/src/version.rs: the protocol version of an information line.
pub mod Decoding
use rtsp_rs.Prelude.{
  ℕ, ◌-◌, ◌||◌, not, ◌==◌, ltb, if◌then◌else◌, map, Bytes, bytes, length, take, get_or, bytes_eq,
  Result, ok, err, ◌>>=◌, to_ascii_uppercase, ◌&&◌, Bool, false, true,
}

pub data Version : Type 0 where
  rtsp1_0 rtsp2_0 : Version

pub data DecodeError : Type 0 where
  invalid : DecodeError
  unknown : ℕ → ℕ → DecodeError

unfoldable pub as_encoded : Version → Bytes
as_encoded rtsp1_0 = bytes "RTSP/1.0"
as_encoded rtsp2_0 = bytes "RTSP/2.0"

-- `PartialEq` of `Version`, at `Version::Rtsp2_0`.
abbrev pub is_rtsp2_0 : Version → Bool
is_rtsp2_0 rtsp1_0 = false
is_rtsp2_0 rtsp2_0 = true

-- `byte.checked_sub(b'0').ok_or(DecodeError::Invalid)`.
checked_digit : ℕ → Result ℕ DecodeError
checked_digit byte = if ltb byte b'0' then err invalid else ok (byte - b'0')

select : ℕ → ℕ → Result Version DecodeError
select major minor =
    if major == 1 && minor == 0
    then ok rtsp1_0
    else if major == 2 && minor == 0
    then ok rtsp2_0
    else if ltb 9 major || ltb 9 minor
    then err invalid
    else err (unknown major minor)

-- Of the bytes 5, 6 and 7 the test has first found that they exist.
unfoldable pub try_decode : Bytes → Result Version DecodeError
unfolding checked_digit select bytes_eq to_ascii_uppercase
try_decode value =
    if not (length value == 8)
      || not (bytes_eq (map to_ascii_uppercase (take 5 value)) (bytes "RTSP/"))
      || not (get_or value 6 0 == b'.')
    then err invalid
    else do
      major ← checked_digit (get_or value 5 0)
      minor ← checked_digit (get_or value 7 0)
      select major minor
