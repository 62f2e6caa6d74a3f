-- ===== src/Codec/Decoder/Response/Turns.antt =====
-- rtsp-2/src/protocol/codec/decoder/response.rs: the loop of `Decoder::decode`, `reset` and the
-- constructors.
use rtsp_rs.Prelude.{Bytes, ok, err}
use rtsp_rs.Header.Map.{HeaderMaps}
use rtsp_rs.Response
use rtsp_rs.Response.{Response, Built, build, new_builder}
use rtsp_rs.Codec.Decoder.{complete, error}
use rtsp_rs.Codec.Decoder.Loop.{Turn, broke}
use rtsp_rs.Codec.Decoder.Loop.Report
use rtsp_rs.Codec.Decoder.Loop.Report.{Decoded}
use rtsp_rs.Codec.Decoder.Steps.{settle}
use rtsp_rs.Codec.Decoder.Response.{
  Config, default_config, DecodeError, DecodeState, at_body, at_end, at_error, at_header,
  at_reason_phrase, at_status_code, at_version, Decoder, decode_body, decode_header,
  decode_reason_phrase, decode_status_code, decode_version,
}

abbrev pub DecodedOf : Type 0 → Type 0
DecodedOf Map = Decoded (Decoder Map) (Response Bytes Map) DecodeError

abbrev pub TurnOf : Type 0 → Type 0
TurnOf Map = Turn (Decoder Map) (Response Bytes Map) DecodeError

module _ {Map : Type 0} where
  -- `self.state = DecodeState::Error(error)`.
  abbrev pub fail : DecodeError → Decoder Map → Decoder Map
  fail e d = record d { state = at_error e }

  module _ (maps : HeaderMaps Map) where
    -- The state `End` behind the call of `build`.
    unfoldable pub finish_built : Built Bytes Map → Decoder Map → Bytes → TurnOf Map
    finish_built (Response.returned (ok response)) d buffer =
        broke (complete response) (record d { builder = new_builder maps; state = at_version })
          buffer
    finish_built (Response.returned (err _)) d buffer = Turn.panicked
    finish_built Response.panicked d buffer = Turn.panicked

    -- `match self.state`. In the state `Error` the count of decoded bytes is 0, that of a buffer left
    -- as it is: no turn of a running loop comes to that state.
    unfoldable pub turn_in : DecodeState → Decoder Map → Bytes → TurnOf Map
    unfolding finish_built
    turn_in at_header d buffer = settle fail (decode_header maps d buffer)
    turn_in at_status_code d buffer = settle fail (decode_status_code d buffer)
    turn_in at_reason_phrase d buffer = settle fail (decode_reason_phrase d buffer)
    turn_in at_version d buffer = settle fail (decode_version d buffer)
    turn_in at_body d buffer = settle fail (decode_body d buffer)
    turn_in at_end d buffer = finish_built (build d.builder) d buffer
    turn_in (at_error e) d buffer = broke (error e) d buffer

    unfoldable pub turn : Decoder Map → Bytes → TurnOf Map
    turn d buffer = turn_in d.state d buffer

    unfoldable pub decode : Decoder Map → Bytes → DecodedOf Map
    decode d buffer = Report.decode turn d buffer

    unfoldable pub with_config : Config → Decoder Map
    with_config config = record {
      builder = new_builder maps;
      config = config;
      content_length = 0;
      state = at_version;
    }

    -- `new`.
    abbrev pub new_decoder : Decoder Map
    new_decoder = with_config default_config

    unfoldable pub reset : Decoder Map → Decoder Map
    reset d = record d { builder = new_builder maps; content_length = 0; state = at_version }
