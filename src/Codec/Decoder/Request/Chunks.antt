-- ===== src/Codec/Decoder/Request/Chunks.antt =====
-- rtsp-2/src/protocol/codec/decoder/request.rs: a request that arrives in parts is decoded as if it had
-- arrived at once.
use rtsp_rs.Prelude.{◌++◌, Bytes, Result}
use rtsp_rs.Header.Map.{HeaderMaps}
use rtsp_rs.Codec.Decoder.Loop.Chunks
use rtsp_rs.Codec.Decoder.Loop.Chunks.{Continues}
use rtsp_rs.Codec.Decoder.Request.{Decoder}
use rtsp_rs.Codec.Decoder.Request.Progress.{measure, enough, turn-Lowers}
use rtsp_rs.Codec.Decoder.Request.Stable.{turn-IsStable}
use rtsp_rs.Codec.Decoder.Request.Suffix.{turn-Suffix}
use rtsp_rs.Codec.Decoder.Request.Turns.{turn, decode}

module _ {Map Uri UriError : Type 0} (maps : HeaderMaps Map)
    (uri_try_from : Bytes → Result Uri UriError) where
  -- More bytes behind a complete request change nothing, and behind an incomplete one they are decoded
  -- as if they had been there in the first call: the second call starts from the decoder and at the
  -- byte where the first one stopped. (A call that ends in an error promises nothing.)
  pub decode-Continues :
      (d : Decoder Map Uri UriError) (buffer later : Bytes)
      → Continues
          (decode maps uri_try_from)
          buffer
          later
          (decode maps uri_try_from d buffer)
          (decode maps uri_try_from d (buffer ++ later))
  unfolding decode
  decode-Continues =
      Chunks.decode-Continues (turn maps uri_try_from) (turn-Suffix maps uri_try_from) measure
        (turn-Lowers maps uri_try_from) (turn-IsStable maps uri_try_from) enough
