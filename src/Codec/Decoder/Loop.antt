-- ===== src/Codec/Decoder/Loop.antt =====
-- The `loop` of `Decoder::decode`, which both decoders have: turns over the rest of the buffer until
-- one breaks. The fuel is the bound of `Loop.Fuel`.
pub mod Fuel
pub mod Resume
pub mod Invariant
pub mod Report
pub mod Chunks
pub mod Total
pub mod Runs
pub mod Start
use rtsp_rs.Prelude.{ℕ, zero, suc, Bytes}
use rtsp_rs.Codec.Decoder.{DecodeResult}

-- One turn: `continue`, `break` with the bytes left, or a failed `expect`.
pub data Turn (D M E : Type 0) : Type 0 where
  again : D → Bytes → Turn D M E
  broke : DecodeResult M E → D → Bytes → Turn D M E
  panicked : Turn D M E

pub data Outcome (D M E : Type 0) : Type 0 where
  finished : DecodeResult M E → D → Bytes → Outcome D M E
  panicked out_of_fuel : Outcome D M E

pub run : {D M E : Type 0} → (D → Bytes → Turn D M E) → ℕ → D → Bytes → Outcome D M E
run turn zero d buffer = out_of_fuel
run turn (suc fuel) d buffer = elim (turn d buffer) [
  | again d' rest ↦ run turn fuel d' rest
  | broke result d' rest ↦ finished result d' rest
  | panicked ↦ Outcome.panicked
]
