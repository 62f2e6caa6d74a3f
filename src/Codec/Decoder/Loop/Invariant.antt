-- ===== src/Codec/Decoder/Loop/Invariant.antt =====
-- The loop of `Decoder::decode`: an invariant of the decoder and the bytes left that every turn keeps
-- holds when the loop ends.
use rtsp_rs.Prelude.{ℕ, zero, suc, Bytes}
use rtsp_rs.Codec.Decoder.{complete, error, incomplete}
use rtsp_rs.Codec.Decoder.Loop.{Turn, again, broke, Outcome, finished, out_of_fuel, run}
use rtsp_rs.Codec.Decoder.Loop.Fuel.{next, run-suc}

module _ {D M E : Type 0} (I : D → Bytes → Type 0) (P : M → Type 0) (Q : E → D → Type 0)
    (F : Type 0) where
  -- The invariant after a turn, with what is said of a complete message, of an error
  -- and of a panic.
  abbrev pub Holds : Turn D M E → Type 0
  Holds (again d rest) = I d rest
  Holds (broke (complete m) d rest) = I d rest × P m
  Holds (broke (error e) d rest) = I d rest × Q e d
  Holds (broke incomplete d rest) = I d rest
  Holds Turn.panicked = F

  abbrev pub Ends : Outcome D M E → Type 0
  Ends (finished (complete m) d rest) = I d rest × P m
  Ends (finished (error e) d rest) = I d rest × Q e d
  Ends (finished incomplete d rest) = I d rest
  Ends Outcome.panicked = F
  Ends out_of_fuel = Unit {0}

  module _ (turn : D → Bytes → Turn D M E)
      (keep : (d : D) (buffer : Bytes) → I d buffer → Holds (turn d buffer)) where
    next-Ends :
        (fuel : ℕ) (t : Turn D M E)
        → ((d : D) (buffer : Bytes) → I d buffer → Ends (run turn fuel d buffer))
        → Holds t
        → Ends (next turn fuel t)
    next-Ends fuel (again d rest) ih h = ih d rest h
    next-Ends fuel (broke (complete m) d rest) ih h = h
    next-Ends fuel (broke (error e) d rest) ih h = h
    next-Ends fuel (broke incomplete d rest) ih h = h
    next-Ends fuel Turn.panicked ih h = h

    pub run-Ends : (fuel : ℕ) (d : D) (buffer : Bytes) → I d buffer → Ends (run turn fuel d buffer)
    run-Ends zero d buffer h = unfold run in tt
    run-Ends (suc fuel) d buffer h =
        let step : Ends (next turn fuel (turn d buffer)) =
          next-Ends fuel (turn d buffer) (run-Ends fuel) (keep d buffer h) in
        rw (run-suc turn fuel d buffer) step
