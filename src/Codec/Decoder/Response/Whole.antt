-- ===== src/Codec/Decoder/Response/Whole.antt =====
-- rtsp-2/src/protocol/codec/decoder/response.rs: `Decoder::decode` as a whole.
use rtsp_rs.Prelude.{◌<◌, ◌-◌, length, ◌≡◌, refl, ◌++◌, Bytes, arith, ok, err, IsSuffix-refl}
use rtsp_rs.Header.Map.{HeaderMaps}
use rtsp_rs.Response
use rtsp_rs.Response.{Response, Built, build}
use rtsp_rs.Codec.Decoder.Loop.Chunks
use rtsp_rs.Codec.Decoder.Loop.Chunks.{Continues}
use rtsp_rs.Codec.Decoder.{DecodeResult}
use rtsp_rs.Codec.Decoder.Loop.{broke}
use rtsp_rs.Codec.Decoder.Loop.Runs.{RunsTo, decode-RunsTo}
use rtsp_rs.Codec.Decoder.Loop.Report.{fuel, returned}
use rtsp_rs.Codec.Decoder.Loop.Resume.{IsStable}
use rtsp_rs.Codec.Decoder.Loop.Total
use rtsp_rs.Codec.Decoder.Loop.Total.{Reports}
use rtsp_rs.Codec.Decoder.Steps
use rtsp_rs.Codec.Decoder.Response.{
  Config, DecodeError, DecodeState, at_body, at_end, at_error, at_header, at_reason_phrase,
  at_status_code, at_version, Decoder,
}
use rtsp_rs.Codec.Decoder.Response.Parts.{
  rank, state_rank-le, decode_body-Consumes, decode_header-Consumes, decode_reason_phrase-Consumes,
  decode_status_code-Consumes, decode_version-Consumes,
}
use rtsp_rs.Codec.Decoder.Response.Safety.{IsSound, IsAllowed, Failed, turn-Sound}
use rtsp_rs.Codec.Decoder.Response.Turns.{fail, TurnOf, finish_built, turn_in, turn, decode}

module _ {Map : Type 0} (maps : HeaderMaps Map) where
  abbrev StepsOf : Decoder Map → Bytes → Bytes → TurnOf Map → TurnOf Map → Type 0
  StepsOf = Steps.Steps (Response Bytes Map) rank

  finish_built-Steps :
      (built : Built Bytes Map) (d : Decoder Map) (buffer later : Bytes)
      → StepsOf d buffer later
          (finish_built maps built d buffer)
          (finish_built maps built d (buffer ++ later))
  unfolding finish_built
  finish_built-Steps (Response.returned (ok response)) d b l = (refl, tt, IsSuffix-refl b)
  finish_built-Steps (Response.returned (err _)) d b l = (refl, tt, tt)
  finish_built-Steps Response.panicked d b l = (refl, tt, tt)

  turn_in-Steps :
      (state : DecodeState) (d : Decoder Map) (buffer later : Bytes)
      → d.state ≡ state
      → StepsOf d buffer later
          (turn_in maps state d buffer)
          (turn_in maps state d (buffer ++ later))
  unfolding turn_in
  turn_in-Steps at_header d b l at =
      Steps.settle-Steps _ rank fail d b l _ _ (decode_header-Consumes d b l maps at)
  turn_in-Steps at_status_code d b l at =
      Steps.settle-Steps _ rank fail d b l _ _ (decode_status_code-Consumes d b l at)
  turn_in-Steps at_reason_phrase d b l at =
      Steps.settle-Steps _ rank fail d b l _ _ (decode_reason_phrase-Consumes d b l at)
  turn_in-Steps at_version d b l at =
      Steps.settle-Steps _ rank fail d b l _ _ (decode_version-Consumes d b l at)
  turn_in-Steps at_body d b l at =
      Steps.settle-Steps _ rank fail d b l _ _ (decode_body-Consumes d b l at)
  turn_in-Steps at_end d b l at = finish_built-Steps (build d.builder) d b l
  turn_in-Steps (at_error _) d b l at = (tt, tt, IsSuffix-refl b)

  turn-Steps :
      (d : Decoder Map) (buffer later : Bytes)
      → StepsOf d buffer later (turn maps d buffer) (turn maps d (buffer ++ later))
  unfolding turn
  turn-Steps d b l = turn_in-Steps d.state d b l refl

  pub turn-IsStable : IsStable (turn maps)
  turn-IsStable = Steps.turn-IsStable _ rank (turn maps) turn-Steps

  enough : (d : Decoder Map) (buffer : Bytes) → Steps.measure rank d buffer < fuel buffer
  enough d buffer = omega (arith, state_rank-le d.state)

  -- More bytes behind a complete response change nothing, and behind an incomplete one they are decoded
  -- as if they had been there in the first call: the second call starts from the decoder and at the
  -- byte where the first one stopped. (A call that ends in an error promises nothing.)
  pub decode_resumes :
      (d : Decoder Map) (buffer later : Bytes)
      → Continues
          (decode maps)
          buffer
          later
          (decode maps d buffer)
          (decode maps d (buffer ++ later))
  unfolding decode
  decode_resumes =
      Chunks.decode-Continues (turn maps) (Steps.turn-Suffix _ rank (turn maps) turn-Steps)
        (Steps.measure rank) (Steps.turn-Lowers _ rank (turn maps) turn-Steps) turn-IsStable enough

  pub decode_returns :
      (config : Config) (d : Decoder Map) (buffer : Bytes)
      → IsSound maps config d
      → Reports (IsSound maps config) (IsAllowed maps config) Failed buffer (decode maps d buffer)
  unfolding decode
  decode_returns config =
      Total.decode-Reports (IsSound maps config) (IsAllowed maps config) Failed (turn maps)
        (Steps.turn-Suffix _ rank (turn maps) turn-Steps) (turn-Sound maps config)
        (Steps.measure rank) (Steps.turn-Lowers _ rank (turn maps) turn-Steps) enough

  -- A run whose turns are known.
  pub decode_run :
      (d d' d'' : Decoder Map) (b b' rest : Bytes)
      (result : DecodeResult (Response Bytes Map) DecodeError)
      → RunsTo (turn maps) d b d' b'
      → turn maps d' b' ≡ broke result d'' rest
      → decode maps d b ≡ returned result (length b - length rest) d''
  unfolding decode
  decode_run =
      decode-RunsTo (turn maps) (Steps.measure rank)
        (Steps.turn-Lowers _ rank (turn maps) turn-Steps) enough
