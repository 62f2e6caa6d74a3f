-- ===== src/Header/Session.antt =====
-- rtsp-2/src/header/types/session.rs: the header `Session`. A `Duration` is its seconds and
-- nanoseconds.
pub mod Printed
use rtsp_rs.Prelude.{
  ℕ, ◌++◌, List, [], ◌∷◌, ◌==◌, ltb, if◌then◌else◌, not, map, Bytes, bytes, bytes_eq,
  to_ascii_lowercase, Option, none, some, Result, ok, err,
}
use rtsp_rs.Header.Numbers
use rtsp_rs.Header.Numbers.{IntErrorKind, parse, to_string}
use rtsp_rs.Header.Value.{HeaderValue}
use rtsp_rs.Session
use rtsp_rs.Session.{SessionIdError, default_session_timeout, max_session_timeout}
use rtsp_rs.Syntax.Whitespace.{trim_whitespace}

pub record Duration : Type 0 where
  pub secs : ℕ
  pub nanos : ℕ

-- The header; the type of the source is called `Session`.
pub record SessionHeader : Type 0 where
  pub id : Bytes
  pub timeout : Option Duration

pub data TimeoutError : Type 0 where
  empty exceeds_maximum_length invalid_digit overflow : TimeoutError

pub data SessionError : Type 0 where
  invalid_parameter_syntax more_than_one_header : SessionError
  session_id : SessionIdError → SessionError
  timeout_error : TimeoutError → SessionError

-- `splitn(2, c)`: what is in front of the first such character, and what is behind it if there is one.
unfoldable pub split_two : ℕ → Bytes → Bytes × Option Bytes
split_two byte [] = ([], none)
split_two byte (c ∷ cs) =
    let (front, behind) = split_two byte cs in
    if c == byte then ([], some cs) else (c ∷ front, behind)

unfoldable pub from_int_error_kind : IntErrorKind → TimeoutError
from_int_error_kind IntErrorKind.empty = empty
from_int_error_kind IntErrorKind.invalid_digit = invalid_digit
from_int_error_kind IntErrorKind.pos_overflow = overflow

unfoldable pub decode_delta :
    Bytes → Result ℕ IntErrorKind → Result (Option SessionHeader) SessionError
unfolding from_int_error_kind
decode_delta id (err kind) = err (timeout_error (from_int_error_kind kind))
decode_delta id (ok delta) =
    if ltb max_session_timeout delta
    then err (timeout_error exceeds_maximum_length)
    else ok (some (record { id = id; timeout = some (record { secs = delta; nanos = 0 }) }))

-- The parameter. Whether its name is `timeout` is told by its lower case; of the characters outside
-- ASCII none has an ASCII letter of that name as its lower case.
unfoldable pub decode_parameter :
    Bytes → Bytes × Option Bytes → Result (Option SessionHeader) SessionError
unfolding decode_delta
decode_parameter id (name, none) = err invalid_parameter_syntax
decode_parameter id (name, some delta) =
    if not (bytes_eq (map to_ascii_lowercase (trim_whitespace name)) (bytes "timeout"))
    then err invalid_parameter_syntax
    else decode_delta id (parse 0xffff_ffff_ffff_ffff (trim_whitespace delta))

unfoldable pub decode_parts : Bytes × Option Bytes → Result (Option SessionHeader) SessionError
unfolding decode_parameter
decode_parts (text, parameter) = elim (Session.try_from (trim_whitespace text)) [
  | err e ↦ err (session_id e)
  | ok id ↦ elim parameter [
    | none ↦ ok (some (record { id = id; timeout = none }))
    | some text ↦ decode_parameter id (split_two b'=' text)
  ]
]

unfoldable pub decode : List HeaderValue → Result (Option SessionHeader) SessionError
unfolding decode_parts split_two
decode [] = ok none
decode (value ∷ []) = decode_parts (split_two b';' value.text)
decode (value ∷ _ ∷ _) = err more_than_one_header

abbrev timeout_text : Bytes → ℕ → Bytes
timeout_text id secs = id ++ (bytes "; timeout = " ++ to_string secs)

unfoldable pub encode_text : Bytes → Option Duration → Bytes
encode_text id none = id
encode_text id (some timeout) =
    if timeout.secs == default_session_timeout then id else timeout_text id timeout.secs

unfoldable pub encode : SessionHeader → List HeaderValue
unfolding encode_text
encode session = record { text = encode_text session.id session.timeout } ∷ []
