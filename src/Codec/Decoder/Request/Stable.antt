-- ===== src/Codec/Decoder/Request/Stable.antt =====
-- rtsp-2/src/protocol/codec/decoder/request.rs: the turns of the request decoder are stable under
-- more bytes, and each takes the decoder on.
use rtsp_rs.Prelude.{◌++◌, Bytes, Result, arith}
use rtsp_rs.Header.Map.{HeaderMaps}
use rtsp_rs.Codec.Decoder.{complete, error, incomplete}
use rtsp_rs.Codec.Decoder.Loop.Resume
use rtsp_rs.Codec.Decoder.Loop.Resume.{IsStable}
use rtsp_rs.Codec.Decoder.Request.{
  DecodeError, DecodeState, at_body, at_end, at_error, at_header, at_method, at_uri, at_version,
  Decoder, Part,
}
use rtsp_rs.Codec.Decoder.Request.Lines.{decode_header-Extends}
use rtsp_rs.Codec.Decoder.Request.Parts.{
  Extends, decode_body-Extends, decode_method-Extends, decode_uri-Extends, decode_version-Extends,
}
use rtsp_rs.Codec.Decoder.Request.Turns.{settle, finish, turn_in, turn}

module _ {Map Uri UriError : Type 0} where
  settle-Extends :
      (d : Decoder Map Uri UriError) (buffer later : Bytes) (p q : Part Map Uri UriError)
      → Extends d buffer later p q
      → Resume.Extends d buffer later (settle p) (settle q)
  unfolding settle
  settle-Extends d buffer later (complete _, d', rest) q h = rw h
  settle-Extends d buffer later (incomplete, d', rest) q h = h
  settle-Extends d buffer later (error e, d', rest) q h = tt

module _ {Map Uri UriError : Type 0} (maps : HeaderMaps Map)
    (uri_try_from : Bytes → Result Uri UriError) where
  finish-Extends :
      (d : Decoder Map Uri UriError) (buffer later : Bytes)
      → Resume.Extends d buffer later (finish maps d buffer) (finish maps d (buffer ++ later))
  unfolding finish
  finish-Extends d buffer later = ground arith

  turn_in-Extends :
      (state : DecodeState (DecodeError UriError)) (d : Decoder Map Uri UriError)
      (buffer later : Bytes)
      → Resume.Extends d buffer later
          (turn_in maps uri_try_from state d buffer)
          (turn_in maps uri_try_from state d (buffer ++ later))
  unfolding turn_in
  turn_in-Extends at_header d b l = settle-Extends d b l _ _ (decode_header-Extends maps d b l)
  turn_in-Extends at_method d b l = settle-Extends d b l _ _ (decode_method-Extends d b l)
  turn_in-Extends at_uri d b l = settle-Extends d b l _ _ (decode_uri-Extends d b l uri_try_from)
  turn_in-Extends at_version d b l = settle-Extends d b l _ _ (decode_version-Extends d b l)
  turn_in-Extends at_body d b l = settle-Extends d b l _ _ (decode_body-Extends d b l)
  turn_in-Extends at_end d b l = finish-Extends d b l
  turn_in-Extends (at_error e) d b l = tt

  -- More bytes do not change what a turn makes of those it reads.
  pub turn-IsStable :
      IsStable (turn {Map = Map} {Uri = Uri} {UriError = UriError} maps uri_try_from)
  unfolding turn
  turn-IsStable d b l = turn_in-Extends d.state d b l
