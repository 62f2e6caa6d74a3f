-- ===== src/Codec/Decoder/Loop/Resume.antt =====
-- Decoding a buffer that arrives in two parts is decoding it at once, whenever the first part does
-- not end in an error: what the loop needs of its turns, and what follows.
use rtsp_rs.Prelude.{ℕ, zero, suc, ◌<◌, ◌≡◌, ◌++◌, Bytes, arith}
use rtsp_rs.Codec.Decoder.{complete, error, incomplete}
use rtsp_rs.Codec.Decoder.Loop.{Turn, again, broke, Outcome, finished, out_of_fuel, run}
use rtsp_rs.Codec.Decoder.Loop.Fuel.{next, Lowers, run-suc, run_fuel}

-- `t` is the turn at `buffer`, and `u` the turn at `buffer` with `later` behind it.
abbrev pub Extends : {D M E : Type 0} → D → Bytes → Bytes → Turn D M E → Turn D M E → Type 0
Extends d buffer later (again d' rest) u = u ≡ again d' (rest ++ later)
Extends d buffer later (broke (complete m) d' rest) u = u ≡ broke (complete m) d' (rest ++ later)
Extends d buffer later (broke incomplete d' rest) u = (d' ≡ d) × (rest ≡ buffer)
Extends d buffer later (broke (error e) d' rest) u = Unit {0}
Extends d buffer later Turn.panicked u = u ≡ Turn.panicked

abbrev pub IsStable : {D M E : Type 0} → (D → Bytes → Turn D M E) → Type 0
IsStable {D} turn =
    (d : D) (buffer later : Bytes)
    → Extends d buffer later (turn d buffer) (turn d (buffer ++ later))

module _ {D M E : Type 0} (turn : D → Bytes → Turn D M E) (measure : D → Bytes → ℕ)
    (low : Lowers turn measure) (stable : IsStable turn) (later : Bytes) where
  -- What the whole buffer gives, where the first part gives the outcome `o`: `g` is any fuel that
  -- is enough.
  abbrev pub Resumes : Outcome D M E → Outcome D M E → Type 0
  Resumes (finished (complete m) d' rest) whole = whole ≡ finished (complete m) d' (rest ++ later)
  Resumes (finished incomplete d' rest) whole =
      (h : ℕ) → measure d' (rest ++ later) < h → whole ≡ run turn h d' (rest ++ later)
  Resumes (finished (error e) d' rest) whole = Unit {0}
  Resumes Outcome.panicked whole = whole ≡ Outcome.panicked
  Resumes out_of_fuel whole = Unit {0}

  next-Resumes :
      (f g : ℕ) (d : D) (buffer : Bytes) (t : Turn D M E)
      → ((g : ℕ) (d : D) (buffer : Bytes)
          → measure d (buffer ++ later) < g
          → Resumes (run turn f d buffer) (run turn g d (buffer ++ later)))
      → measure d (buffer ++ later) < suc g
      → Extends d buffer later t (turn d (buffer ++ later))
      → Resumes (next turn f t) (run turn (suc g) d (buffer ++ later))
  next-Resumes f g d buffer (again d' rest) ih h x =
      rw (run-suc turn g d (buffer ++ later), x)
        (ih g d' rest (omega (arith, rw x at (low d (buffer ++ later)))))
  next-Resumes f g d buffer (broke (complete m) d' rest) ih h x =
      rw (run-suc turn g d (buffer ++ later), x)
  next-Resumes f g d buffer (broke incomplete d' rest) ih h (same, all) = λ k enough.
      rw (same, all)
        (run_fuel turn measure low (suc g) k d (buffer ++ later) h (rw (same, all) at enough))
  next-Resumes f g d buffer (broke (error e) d' rest) ih h x = tt
  next-Resumes f g d buffer Turn.panicked ih h x = rw (run-suc turn g d (buffer ++ later), x)

  pub run-Resumes :
      (f g : ℕ) (d : D) (buffer : Bytes)
      → measure d (buffer ++ later) < g
      → Resumes (run turn f d buffer) (run turn g d (buffer ++ later))
  run-Resumes zero g d buffer h = unfold run in tt
  run-Resumes (suc f) zero d buffer h = absurd (omega arith)
  run-Resumes (suc f) (suc g) d buffer h =
      rw (run-suc turn f d buffer)
        (next-Resumes f g d buffer (turn d buffer) (run-Resumes f) h (stable d buffer later))
