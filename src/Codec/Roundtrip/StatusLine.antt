-- ===== src/Codec/Roundtrip/StatusLine.antt =====
-- rtsp-2/src/protocol/codec: the status code that the encoder writes, as the decoder reads it.
use rtsp_rs.Prelude.{◌+◌, ◌/◌, ◌%◌, ◌≡◌, ap, ◌∙◌, [], ◌∷◌, ok, arith}
use rtsp_rs.Header.Numbers.{to_string, to_string_three_digits}
use rtsp_rs.Status
use rtsp_rs.Status.{StatusCode, to_code, try_from_bytes}
use rtsp_rs.Status.Digits.{try_from-range}

module _ (status : StatusCode) (parses : Status.try_from (to_code status) ≡ ok status) where
  pub written_code :
      to_string (to_code status)
      ≡ (b'0' + to_code status / 100)
        ∷ (b'0' + to_code status / 10 % 10)
        ∷ (b'0' + to_code status % 10)
        ∷ []
  written_code =
      let (low, high) = try_from-range (to_code status) status parses in
      to_string_three_digits (to_code status) low (omega arith)

  pub try_from_bytes-to_string : try_from_bytes (to_string (to_code status)) ≡ ok status
  unfolding try_from_bytes
  try_from_bytes-to_string =
      let (low, high) = try_from-range (to_code status) status parses in
      ap try_from_bytes written_code ∙ ap Status.try_from (omega arith) ∙ parses
