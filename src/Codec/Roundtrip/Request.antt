-- ===== src/Codec/Roundtrip/Request.antt =====
-- rtsp-2/src/protocol/codec: the requests that an encoder writes and a decoder reads back.
pub mod FirstLine
pub mod Turns
pub mod Whole
use rtsp_rs.Prelude.{◌≤◌, ◌≡◌, true, Bytes, length, Result, ok}
use rtsp_rs.Header.Map.{HeaderMaps}
use rtsp_rs.Method
use rtsp_rs.Request.{Request}
use rtsp_rs.Version.{rtsp2_0}
use rtsp_rs.Codec.Decoder.Request.Limits.{Config}
use rtsp_rs.Codec.Roundtrip.Printed.{lacks}
use rtsp_rs.Codec.Roundtrip.Headers.{IsSendableRest}

module _ {Map Uri UriError : Type 0} (maps : HeaderMaps Map)
    (uri_try_from : Bytes → Result Uri UriError) (uri_to_string : Uri → Bytes)
    (config : Config) where
  -- A request that is within the limits of a decoder, and whose method, URI and headers are read as
  -- they are written.
  pub record IsSendable (request : Request Bytes Map Uri) : Type 0 where
    pub method_parses : Method.try_from (Method.as_str request.method) ≡ ok request.method
    pub method_le : length (Method.as_str request.method) ≤ config.method_max_length
    pub uri_parses : uri_try_from (uri_to_string request.uri) ≡ ok request.uri
    pub uri_lacks_space : lacks b' ' (uri_to_string request.uri) ≡ true
    pub uri_le : length (uri_to_string request.uri) ≤ config.uri_max_length
    pub is_rtsp2_0 : request.version ≡ rtsp2_0
    pub rest_sendable :
        IsSendableRest maps config.body_max_length config.header_max_count
          config.header_name_max_length config.header_value_max_length request.headers request.body
