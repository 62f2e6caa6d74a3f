-- ===== src/Tests/Sessions.antt =====
-- Runs of the header `Session` at concrete inputs.
use rtsp_rs.Prelude.{◌≡◌, refl, bytes, some, arith}
use rtsp_rs.Header.Session.{SessionHeader, decode, encode}
use rtsp_rs.Header.Session.Printed.{read_back, decode-encode_session}
use rtsp_rs.Session

abbrev session : SessionHeader
session = record {
  id = bytes "QKyjN8nt2WqbWw4tIYof52";
  timeout = some (record { secs = 180; nanos = 5 });
}

decode-encode_session_example : decode (encode session) ≡ read_back session
unfolding Session.try_from Session.is_session_char
decode-encode_session_example = decode-encode_session session refl (λ t e. ground (arith, e))
