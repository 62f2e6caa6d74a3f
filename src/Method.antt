-- ===== src/Method.antt =====
-- rtsp-2/src/method.rs: the methods of requests, standard ones and extensions.
pub mod Cases
use rtsp_rs.Prelude.{
  ℕ, [], ◌∷◌, ◌&&◌, not, ◌==◌, if◌then◌else◌, map, Bytes, bytes, length, take, bytes_eq, Result, ok,
  err, to_ascii_uppercase,
}
use rtsp_rs.Syntax.{is_token}

pub data MethodError : Type 0 where
  empty invalid_character starts_with_dollar_sign : MethodError

-- An extension method holds the string of `ExtensionMethod`.
pub data Method : Type 0 where
  describe get_parameter options pause play play_notify redirect : Method
  set_parameter setup teardown : Method
  extension : Bytes → Method

unfoldable pub as_str : Method → Bytes
as_str describe = bytes "DESCRIBE"
as_str get_parameter = bytes "GET_PARAMETER"
as_str options = bytes "OPTIONS"
as_str pause = bytes "PAUSE"
as_str play = bytes "PLAY"
as_str play_notify = bytes "PLAY_NOTIFY"
as_str redirect = bytes "REDIRECT"
as_str set_parameter = bytes "SET_PARAMETER"
as_str setup = bytes "SETUP"
as_str teardown = bytes "TEARDOWN"
as_str (extension name) = name

-- `Method::extension`.
to_extension : Bytes → Result Method MethodError
to_extension [] = err empty
to_extension (c ∷ cs) =
    if c == b'$'
    then err starts_with_dollar_sign
    else if not (is_token (c ∷ cs))
    then err invalid_character
    else ok (extension (map to_ascii_uppercase (c ∷ cs)))

-- The macro `check_method!`: `method` if `value` spells it, and else what follows.
check_method : Bytes → Method → Result Method MethodError → Result Method MethodError
check_method value method otherwise =
    let name = as_str method in
    if bytes_eq (map to_ascii_uppercase (take (length name) value)) name
      && length value == length name
    then ok method
    else otherwise

pub try_from : Bytes → Result Method MethodError
try_from value =
    if length value == 4
    then check_method value play (to_extension value)
    else if length value == 5
    then check_method value pause (check_method value setup (to_extension value))
    else if length value == 7
    then check_method value options (to_extension value)
    else if length value == 8
    then check_method value describe
        (check_method value redirect (check_method value teardown (to_extension value)))
    else if length value == 11
    then check_method value play_notify (to_extension value)
    else if length value == 13
    then check_method value get_parameter (check_method value set_parameter (to_extension value))
    else to_extension value
