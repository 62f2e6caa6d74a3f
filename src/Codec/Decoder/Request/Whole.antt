-- ===== src/Codec/Decoder/Request/Whole.antt =====
-- rtsp-2/src/protocol/codec/decoder/request.rs: `Decoder::decode` as a whole.
use rtsp_rs.Prelude.{suc, ◌+◌, ◌-◌, ◌≡◌, ap, Bytes, length, Result, arith}
use rtsp_rs.Header.Map.{HeaderMaps}
use rtsp_rs.Request.{new_builder}
use rtsp_rs.Codec.Decoder.{error}
use rtsp_rs.Codec.Decoder.Loop.Fuel.{run-suc}
use rtsp_rs.Codec.Decoder.Loop.Report.{returned, fuel, report}
use rtsp_rs.Codec.Decoder.Loop.Report
use rtsp_rs.Codec.Decoder.Loop.Total.{Reports}
use rtsp_rs.Codec.Decoder.Loop.Total
use rtsp_rs.Codec.Decoder.Request.{DecodeError, at_error, Decoder}
use rtsp_rs.Codec.Decoder.Request.Limits.{Config}
use rtsp_rs.Codec.Decoder.Request.Progress.{measure, enough, turn-Lowers}
use rtsp_rs.Codec.Decoder.Request.Safety.{IsSound, IsAllowed, Failed, turn-Sound}
use rtsp_rs.Codec.Decoder.Request.Suffix.{turn-Suffix}
use rtsp_rs.Codec.Decoder.Request.Turns.{turn, turn_in, decode, with_config, reset}

module _ {Map Uri UriError : Type 0} (maps : HeaderMaps Map)
    (uri_try_from : Bytes → Result Uri UriError) where
  pub decode-Reports :
      (config : Config) (d : Decoder Map Uri UriError) (buffer : Bytes)
      → IsSound maps config d
      → Reports
          (IsSound maps config)
          (IsAllowed maps config)
          (Failed maps)
          buffer
          (decode maps uri_try_from d buffer)
  unfolding decode
  decode-Reports config =
      Total.decode-Reports (IsSound maps config) (IsAllowed maps config) (Failed maps)
        (turn maps uri_try_from) (turn-Suffix maps uri_try_from)
        (turn-Sound maps uri_try_from config) measure (turn-Lowers maps uri_try_from) enough

  -- A new decoder is sound.
  pub with_config-IsSound :
      (config : Config)
      → IsSound {Uri = Uri} {UriError = UriError} maps config (with_config maps config)
  unfolding with_config new_builder
  with_config-IsSound config = ground (arith, maps.values_len-empty)

  -- A decoder that is reset is sound again, in the configuration that it has.
  pub reset-IsSound : (d : Decoder Map Uri UriError) → IsSound maps d.config (reset maps d)
  unfolding reset new_builder
  reset-IsSound d = ground (arith, maps.values_len-empty)

  -- In the state of an error a decoder reads nothing and gives the error again.
  pub decode-at_error :
      (d : Decoder Map Uri UriError) (e : DecodeError UriError) (buffer : Bytes)
      → d.state ≡ at_error e
      → decode maps uri_try_from d buffer ≡ returned (error e) 0 d
  unfolding decode Report.decode report turn turn_in
  decode-at_error d e buffer h =
      let more : fuel buffer ≡ suc (length buffer + 2) = omega arith in
      rw (more, run-suc (turn maps uri_try_from) (length buffer + 2) d buffer, h)
        (let none_read : length buffer - length buffer ≡ 0 = omega arith in
          ap (λ n. returned (error e) n (record d { state = at_error e })) none_read)
