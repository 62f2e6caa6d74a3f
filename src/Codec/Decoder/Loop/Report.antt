-- ===== src/Codec/Decoder/Loop/Report.antt =====
-- What `Decoder::decode` returns, and the call as a whole: both decoders have the same.
use rtsp_rs.Prelude.{ℕ, ◌+◌, ◌-◌, Bytes, length}
use rtsp_rs.Codec.Decoder.{DecodeResult}
use rtsp_rs.Codec.Decoder.Loop.{Turn, Outcome, finished, run}

-- The result and the number of decoded bytes, with the decoder after the call; or the panic of a failed
-- `expect`. The fuel is never used up.
pub data Decoded (D M E : Type 0) : Type 0 where
  returned : DecodeResult M E → ℕ → D → Decoded D M E
  panicked out_of_fuel : Decoded D M E

-- Each turn takes a byte, but for those of the body and the end.
abbrev pub fuel : Bytes → ℕ
fuel buffer = length buffer + 3

module _ {D M E : Type 0} where
  unfoldable pub report : ℕ → Outcome D M E → Decoded D M E
  report buffer_size (finished result d rest) = returned result (buffer_size - length rest) d
  report buffer_size Outcome.panicked = panicked
  report buffer_size Outcome.out_of_fuel = out_of_fuel

  unfoldable pub decode : (D → Bytes → Turn D M E) → D → Bytes → Decoded D M E
  unfolding report
  decode turn d buffer = report (length buffer) (run turn (fuel buffer) d buffer)
