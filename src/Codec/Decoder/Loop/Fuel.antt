-- ===== src/Codec/Decoder/Loop/Fuel.antt =====
-- The loop of `Decoder::decode` ends: every turn that continues lowers a measure, so that fuel above
-- the measure is never used up, and more of it changes nothing.
use rtsp_rs.Prelude.{ℕ, zero, suc, ◌<◌, ◌≡◌, ◌≢◌, refl, Bytes, arith}
use rtsp_rs.Codec.Decoder.Loop.{Turn, again, broke, Outcome, finished, out_of_fuel, run}

-- The turn of the loop at a value that the turn function has given.
abbrev pub next : {D M E : Type 0} → (D → Bytes → Turn D M E) → ℕ → Turn D M E → Outcome D M E
next turn fuel (again d rest) = run turn fuel d rest
next turn fuel (broke result d rest) = finished result d rest
next turn fuel Turn.panicked = Outcome.panicked

abbrev pub Lower : {D M E : Type 0} → (D → Bytes → ℕ) → ℕ → Turn D M E → Type 0
Lower measure n (again d rest) = measure d rest < n
Lower measure n (broke result d rest) = Unit {0}
Lower measure n Turn.panicked = Unit {0}

-- A measure that each continued turn lowers.
abbrev pub Lowers : {D M E : Type 0} → (D → Bytes → Turn D M E) → (D → Bytes → ℕ) → Type 0
Lowers {D} turn measure =
    (d : D) (buffer : Bytes) → Lower measure (measure d buffer) (turn d buffer)

module _ {D M E : Type 0} (turn : D → Bytes → Turn D M E) where
  pub run-suc :
      (fuel : ℕ) (d : D) (buffer : Bytes)
      → run turn (suc fuel) d buffer ≡ next turn fuel (turn d buffer)
  unfolding run
  run-suc fuel d buffer = ground arith

module _ {D M E : Type 0} (turn : D → Bytes → Turn D M E) (measure : D → Bytes → ℕ)
    (low : Lowers turn measure) where
  abbrev Enough : ℕ → Type 0
  Enough f =
      (g : ℕ) (d : D) (buffer : Bytes)
      → measure d buffer < f
      → measure d buffer < g
      → run turn f d buffer ≡ run turn g d buffer

  next-eq :
      (f g n : ℕ) (t : Turn D M E)
      → Enough f
      → n < suc f
      → n < suc g
      → Lower measure n t
      → next turn f t ≡ next turn g t
  next-eq f g n (again d rest) ih hf hg l = ih g d rest (omega arith) (omega arith)
  next-eq f g n (broke result d rest) ih hf hg l = refl
  next-eq f g n Turn.panicked ih hf hg l = refl

  -- Fuel above the measure makes no difference.
  pub run_fuel : (f : ℕ) → Enough f
  run_fuel zero g d buffer hf hg = absurd (omega arith)
  run_fuel (suc f) zero d buffer hf hg = absurd (omega arith)
  run_fuel (suc f) (suc g) d buffer hf hg =
      rw (run-suc turn f d buffer, run-suc turn g d buffer)
        (next-eq f g (measure d buffer) (turn d buffer) (run_fuel f) hf hg (low d buffer))

  next-ne-out_of_fuel :
      (f n : ℕ) (t : Turn D M E)
      → ((d : D) (buffer : Bytes) → measure d buffer < f → run turn f d buffer ≢ out_of_fuel)
      → n < suc f
      → Lower measure n t
      → next turn f t ≢ out_of_fuel
  next-ne-out_of_fuel f n (again d rest) ih h l = ih d rest (omega arith)
  next-ne-out_of_fuel f n (broke result d rest) ih h l = λ e. cc
  next-ne-out_of_fuel f n Turn.panicked ih h l = λ e. cc

  -- Fuel above the measure is enough.
  pub run-ne-out_of_fuel :
      (f : ℕ) (d : D) (buffer : Bytes) → measure d buffer < f → run turn f d buffer ≢ out_of_fuel
  run-ne-out_of_fuel zero d buffer h = absurd (omega arith)
  run-ne-out_of_fuel (suc f) d buffer h = rw (run-suc turn f d buffer) (
      next-ne-out_of_fuel f (measure d buffer) (turn d buffer) (run-ne-out_of_fuel f) h
        (low d buffer))
