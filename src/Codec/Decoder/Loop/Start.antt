-- ===== src/Codec/Decoder/Loop/Start.antt =====
-- The loop of `Decoder::decode` that asks for more bytes with the decoder at its start: it has done
-- nothing.
use rtsp_rs.Prelude.{
  ℕ, zero, suc, ◌-◌, ◌≡◌, ap, ◌∙◌, ◌++◌, [], Bool, true, false, Bytes, length, arith,
}
use rtsp_rs.Codec.Decoder.{complete, error, incomplete}
use rtsp_rs.Codec.Decoder.Loop.{Turn, again, broke, Outcome, finished, out_of_fuel, run}
use rtsp_rs.Codec.Decoder.Loop.Fuel.{next, run-suc}
use rtsp_rs.Codec.Decoder.Loop.Report.{
  Decoded, returned, panicked, out_of_fuel, fuel, report, decode,
}
use rtsp_rs.Codec.Decoder.Loop.Resume.{Extends, IsStable}

module _ {D M E : Type 0} (is_start : D → Bool) where
  -- A turn that continues leaves the start.
  abbrev pub Moves : Turn D M E → Type 0
  Moves (again d rest) = is_start d ≡ false
  Moves (broke result d rest) = Unit {0}
  Moves Turn.panicked = Unit {0}

  abbrev Kept : D → Bytes → Outcome D M E → Type 0
  Kept d buffer (finished incomplete d' rest) = is_start d' ≡ true → (d' ≡ d) × (rest ≡ buffer)
  Kept d buffer (finished (complete m) d' rest) = Unit {0}
  Kept d buffer (finished (error e) d' rest) = Unit {0}
  Kept d buffer Outcome.panicked = Unit {0}
  Kept d buffer Outcome.out_of_fuel = Unit {0}

  -- The same of a call.
  abbrev pub Unmoved : D → Decoded D M E → Type 0
  Unmoved d (returned incomplete n d') = is_start d' ≡ true → (d' ≡ d) × (n ≡ 0)
  Unmoved d (returned (complete m) n d') = Unit {0}
  Unmoved d (returned (error e) n d') = Unit {0}
  Unmoved d panicked = Unit {0}
  Unmoved d out_of_fuel = Unit {0}

  module _ (turn : D → Bytes → Turn D M E)
      (moves : (d : D) (buffer : Bytes) → Moves (turn d buffer)) (stable : IsStable turn) where
    left_start :
        (d d' : D) (buffer rest : Bytes) (o : Outcome D M E)
        → is_start d' ≡ false
        → Kept d' rest o
        → Kept d buffer o
    left_start d d' buffer rest (finished incomplete d'' left) h kept =
        λ start. let (same, all) = kept start in cc
    left_start d d' buffer rest (finished (complete m) d'' left) h kept = tt
    left_start d d' buffer rest (finished (error e) d'' left) h kept = tt
    left_start d d' buffer rest Outcome.panicked h kept = tt
    left_start d d' buffer rest Outcome.out_of_fuel h kept = tt

    next-Kept :
        (f : ℕ) (d : D) (buffer : Bytes) (t : Turn D M E)
        → ((d : D) (buffer : Bytes) → Kept d buffer (run turn f d buffer))
        → Moves t
        → Extends d buffer [] t (turn d (buffer ++ []))
        → Kept d buffer (next turn f t)
    next-Kept f d buffer (again d' rest) ih m x = left_start d d' buffer rest _ m (ih d' rest)
    next-Kept f d buffer (broke incomplete d' rest) ih m x = λ start. x
    next-Kept f d buffer (broke (complete a) d' rest) ih m x = tt
    next-Kept f d buffer (broke (error e) d' rest) ih m x = tt
    next-Kept f d buffer Turn.panicked ih m x = tt

    run-Kept : (f : ℕ) (d : D) (buffer : Bytes) → Kept d buffer (run turn f d buffer)
    run-Kept zero d buffer = unfold run in tt
    run-Kept (suc f) d buffer =
        rw (run-suc turn f d buffer)
          (next-Kept f d buffer (turn d buffer) (run-Kept f) (moves d buffer) (stable d buffer []))

    report-Unmoved :
        (d : D) (buffer : Bytes) (o : Outcome D M E)
        → Kept d buffer o
        → Unmoved d (report (length buffer) o)
    unfolding report
    report-Unmoved d buffer (finished incomplete d' rest) kept = λ start.
        let (same, all) = kept start in (same, ap (λ b. length buffer - length b) all ∙ omega arith)
    report-Unmoved d buffer (finished (complete m) d' rest) kept = tt
    report-Unmoved d buffer (finished (error e) d' rest) kept = tt
    report-Unmoved d buffer Outcome.panicked kept = tt
    report-Unmoved d buffer Outcome.out_of_fuel kept = tt

    pub decode-Unmoved : (d : D) (buffer : Bytes) → Unmoved d (decode turn d buffer)
    unfolding decode
    decode-Unmoved d buffer = report-Unmoved d buffer _ (run-Kept (fuel buffer) d buffer)
