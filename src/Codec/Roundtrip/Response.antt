-- ===== src/Codec/Roundtrip/Response.antt =====
-- rtsp-2/src/protocol/codec: the responses that an encoder writes and a decoder reads back.
pub mod FirstLine
pub mod Turns
pub mod Whole
use rtsp_rs.Prelude.{◌≤◌, ◌≡◌, true, false, Bytes, length, some, ok}
use rtsp_rs.Header.Map.{HeaderMaps}
use rtsp_rs.Reason
use rtsp_rs.Response.{Response, is_extension}
use rtsp_rs.Status
use rtsp_rs.Status.{to_code, canonical_reason}
use rtsp_rs.Version.{rtsp2_0}
use rtsp_rs.Codec.Decoder.Response.{Config}
use rtsp_rs.Codec.Roundtrip.Headers.{IsSendableRest}
use rtsp_rs.Codec.Roundtrip.Printed.{lacks}

-- A response that is within the limits of a decoder, and whose status code, reason phrase and headers
-- are read as they are written. A status code that is no extension has its canonical reason phrase.
pub record IsSendable {Map : Type 0} (maps : HeaderMaps Map) (config : Config)
    (response : Response Bytes Map) : Type 0 where
  pub is_rtsp2_0 : response.version ≡ rtsp2_0
  pub code_parses : Status.try_from (to_code response.status_code) ≡ ok response.status_code
  pub reason_parses : Reason.try_from response.reason_phrase ≡ ok response.reason_phrase
  pub reason_one_line : lacks b'\r' response.reason_phrase ≡ true
  pub reason_le : length response.reason_phrase ≤ config.reason_phrase_max_length
  pub reason_is :
      is_extension response.status_code ≡ false
      → canonical_reason response.status_code ≡ some response.reason_phrase
  pub rest_sendable :
      IsSendableRest maps config.body_max_length config.header_max_count
        config.header_name_max_length config.header_value_max_length response.headers response.body
