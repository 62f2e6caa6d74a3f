-- ===== src/Codec/Codec/Safe.antt =====
-- rtsp-2/src/protocol/codec/mod.rs: what `decode` and `decode_eof` promise on every buffer.
use rtsp_rs.Prelude.{◌≡◌, [], Bytes, Option, none, some, Result, ok, err}
use rtsp_rs.Header.Map.{HeaderMaps}
use rtsp_rs.Codec.Decoder.Request.Limits as RequestLimits
use rtsp_rs.Codec.Decoder.Response as ResponseDecoder
use rtsp_rs.Codec.Codec.{Codec, Attempt, attempted, panicked, CodecEvent}
use rtsp_rs.Codec.Codec.Sound.{IsSound, Safe}

module _ {Map Uri UriError Sink : Type 0} (IoError : Type 0) (maps : HeaderMaps Map)
    (uri_try_from : Bytes → Result Uri UriError) (uri_to_string : Uri → Bytes)
    (unbounded_send : CodecEvent → Sink → Option Sink) (request_config : RequestLimits.Config)
    (response_config : ResponseDecoder.Config) where
  abbrev Sound : Codec Map Uri UriError Sink → Type 0
  Sound =
      IsSound IoError maps uri_try_from uri_to_string unbounded_send request_config response_config

  abbrev SafeIn : Bytes → Attempt Map Uri UriError IoError Sink → Type 0
  SafeIn =
      Safe IoError maps uri_try_from uri_to_string unbounded_send request_config response_config

  -- Without a message at the end of the stream nothing is left.
  abbrev pub NothingLeft : Attempt Map Uri UriError IoError Sink → Type 0
  NothingLeft (attempted (ok none) c rest) = rest ≡ []
  NothingLeft (attempted (ok (some message)) c rest) = Unit {0}
  NothingLeft (attempted (err e) c rest) = Unit {0}
  NothingLeft panicked = ⊥
