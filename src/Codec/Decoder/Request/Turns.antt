-- ===== src/Codec/Decoder/Request/Turns.antt =====
-- rtsp-2/src/protocol/codec/decoder/request.rs: the loop of `Decoder::decode`, `reset` and the
-- constructors.
use rtsp_rs.Prelude.{Bytes, Result, ok, err}
use rtsp_rs.Header.Map.{HeaderMaps}
use rtsp_rs.Request.{Request, build, new_builder}
use rtsp_rs.Codec.Decoder.{complete, error, incomplete}
use rtsp_rs.Codec.Decoder.Loop.{Turn, again, broke}
use rtsp_rs.Codec.Decoder.Loop.Report.{Decoded}
use rtsp_rs.Codec.Decoder.Loop.Report
use rtsp_rs.Codec.Decoder.Request.{
  DecodeError, DecodeState, at_body, at_end, at_error, at_header, at_method, at_uri, at_version,
  Decoder, Part, decode_body, decode_header, decode_method, decode_uri, decode_version,
}
use rtsp_rs.Codec.Decoder.Request.Limits.{Config, default_config}

abbrev pub DecodedOf : Type 0 → Type 0 → Type 0 → Type 0
DecodedOf Map Uri UriError =
    Decoded (Decoder Map Uri UriError) (Request Bytes Map Uri) (DecodeError UriError)

abbrev pub TurnOf : Type 0 → Type 0 → Type 0 → Type 0
TurnOf Map Uri UriError =
    Turn (Decoder Map Uri UriError) (Request Bytes Map Uri) (DecodeError UriError)

module _ {Map Uri UriError : Type 0} where
  -- `match decode_result`.
  unfoldable pub settle : Part Map Uri UriError → TurnOf Map Uri UriError
  settle (complete _, d, rest) = again d rest
  settle (error e, d, rest) = broke (error e) (record d { state = at_error e }) rest
  settle (incomplete, d, rest) = broke incomplete d rest

  module _ (maps : HeaderMaps Map) where
    -- The state `End`: the request is built, and the builder replaced.
    unfoldable pub finish : Decoder Map Uri UriError → Bytes → TurnOf Map Uri UriError
    finish d buffer = elim (build d.builder) [
      | ok request ↦
          broke (complete request) (record d { builder = new_builder maps; state = at_method })
            buffer
      | err _ ↦ Turn.panicked
    ]

    module _ (uri_try_from : Bytes → Result Uri UriError) where
      -- `match self.state`. In the state `Error` the count of decoded bytes is 0, that of a buffer left
      -- as it is: no turn of a running loop comes to that state.
      unfoldable pub turn_in :
          DecodeState (DecodeError UriError)
          → Decoder Map Uri UriError
          → Bytes
          → TurnOf Map Uri UriError
      turn_in at_header d buffer = settle (decode_header maps d buffer)
      turn_in at_method d buffer = settle (decode_method d buffer)
      turn_in at_uri d buffer = settle (decode_uri uri_try_from d buffer)
      turn_in at_version d buffer = settle (decode_version d buffer)
      turn_in at_body d buffer = settle (decode_body d buffer)
      turn_in at_end d buffer = finish d buffer
      turn_in (at_error e) d buffer = broke (error e) d buffer

      unfoldable pub turn : Decoder Map Uri UriError → Bytes → TurnOf Map Uri UriError
      turn d buffer = turn_in d.state d buffer

      unfoldable pub decode : Decoder Map Uri UriError → Bytes → DecodedOf Map Uri UriError
      decode d buffer = Report.decode turn d buffer

    unfoldable pub with_config : Config → Decoder Map Uri UriError
    with_config config = record {
      builder = new_builder maps;
      config = config;
      content_length = 0;
      state = at_method;
    }

    -- `new`.
    abbrev pub new_decoder : Decoder Map Uri UriError
    new_decoder = with_config default_config

    unfoldable pub reset : Decoder Map Uri UriError → Decoder Map Uri UriError
    reset d = record d { builder = new_builder maps; content_length = 0; state = at_method }
