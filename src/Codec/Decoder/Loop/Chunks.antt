-- ===== src/Codec/Decoder/Loop/Chunks.antt =====
-- A message that arrives in parts is decoded as if it had arrived at once: what the turns of a decoder
-- need for that.
use rtsp_rs.Prelude.{
  ℕ, ◌+◌, ◌-◌, ◌<◌, ◌≡◌, refl, ap, ◌∙◌, ◌++◌, Bytes, length, drop, length-append, arith, IsSuffix,
  IsSuffix-refl, IsSuffix-trans, IsSuffix_lem,
}
use rtsp_rs.Codec.Decoder.{complete, error, incomplete}
use rtsp_rs.Codec.Decoder.Loop.{Turn, again, broke, Outcome, finished}
use rtsp_rs.Codec.Decoder.Loop
use rtsp_rs.Codec.Decoder.Loop.Fuel.{Lowers}
use rtsp_rs.Codec.Decoder.Loop.Invariant.{Holds, Ends, run-Ends}
use rtsp_rs.Codec.Decoder.Loop.Report.{
  Decoded, returned, panicked, out_of_fuel, fuel, report, decode,
}
use rtsp_rs.Codec.Decoder.Loop.Resume.{IsStable, Resumes, run-Resumes}

-- What a turn leaves is the buffer without its first bytes.
abbrev pub SuffixTurn : {D M E : Type 0} → Bytes → Turn D M E → Type 0
SuffixTurn buffer (again d rest) = IsSuffix rest buffer
SuffixTurn buffer (broke r d rest) = IsSuffix rest buffer
SuffixTurn buffer Turn.panicked = Unit {0}

module _ {D M E : Type 0} where
  -- The result of a later call, with the bytes of the earlier one counted.
  abbrev pub advance : ℕ → Decoded D M E → Decoded D M E
  advance n (returned result m d) = returned result (n + m) d
  advance n panicked = panicked
  advance n out_of_fuel = out_of_fuel

  -- What a decoder gives for `buffer` with `later` behind it, by what it gives for `buffer`.
  abbrev pub Continues :
      (D → Bytes → Decoded D M E) → Bytes → Bytes → Decoded D M E → Decoded D M E → Type 0
  Continues decodes buffer later (returned (complete message) n d) whole =
      whole ≡ returned (complete message) n d
  Continues decodes buffer later (returned incomplete n d) whole =
      whole ≡ advance n (decodes d (drop n buffer ++ later))
  Continues decodes buffer later (returned (error e) n d) whole = Unit {0}
  Continues decodes buffer later panicked whole = whole ≡ panicked
  Continues decodes buffer later out_of_fuel whole = Unit {0}

module _ {D M E : Type 0} (turn : D → Bytes → Turn D M E)
    (suffix : (d : D) (buffer : Bytes) → SuffixTurn buffer (turn d buffer)) where
  abbrev runs : D → Bytes → Outcome D M E
  runs d buffer = Loop.run turn (fuel buffer) d buffer

  -- What the loop leaves is behind what it has read, and an outcome of the loop on `buffer` that ends.
  abbrev Left : Bytes → D → Bytes → Type 0
  Left buffer d rest = IsSuffix rest buffer

  abbrev AnyMessage : M → Type 0
  AnyMessage m = Unit {0}

  abbrev AnyError : E → D → Type 0
  AnyError e d = Unit {0}

  turn-Left :
      (buffer : Bytes) (d : D) (rest : Bytes)
      → Left buffer d rest
      → Holds (Left buffer) AnyMessage AnyError (Unit {0}) (turn d rest)
  turn-Left buffer d rest left = go (turn d rest) (suffix d rest)
    where
      go :
          (t : Turn D M E)
          → SuffixTurn rest t
          → Holds (Left buffer) AnyMessage AnyError (Unit {0}) t
      go (again d' rest') k = IsSuffix-trans rest' rest buffer k left
      go (broke (complete m) d' rest') k = (IsSuffix-trans rest' rest buffer k left, tt)
      go (broke (error e) d' rest') k = (IsSuffix-trans rest' rest buffer k left, tt)
      go (broke incomplete d' rest') k = IsSuffix-trans rest' rest buffer k left
      go Turn.panicked k = tt

  runs-Left :
      (d : D) (buffer : Bytes) → Ends (Left buffer) AnyMessage AnyError (Unit {0}) (runs d buffer)
  runs-Left d buffer =
      run-Ends (Left buffer) AnyMessage AnyError (Unit {0}) turn (turn-Left buffer) _ d buffer
        (IsSuffix-refl buffer)

  count :
      (buffer rest later r : Bytes)
      → IsSuffix rest buffer
      → IsSuffix r (rest ++ later)
      → length (buffer ++ later) - length r
        ≡ length buffer - length rest + (length (rest ++ later) - length r)
  count buffer rest later r s x =
      let shorter = (IsSuffix_lem rest buffer s).0 in
      let shorter' = (IsSuffix_lem r (rest ++ later) x).0 in
      omega (arith, length-append buffer later, length-append rest later)

  report-advance :
      (buffer rest later : Bytes) (o : Outcome D M E)
      → IsSuffix rest buffer
      → Ends (Left (rest ++ later)) AnyMessage AnyError (Unit {0}) o
      → report (length (buffer ++ later)) o
        ≡ advance (length buffer - length rest) (report (length (rest ++ later)) o)
  unfolding report
  report-advance buffer rest later (finished (complete m) d r) s (x, _) =
      ap (λ n. returned (complete m) n d) (count buffer rest later r s x)
  report-advance buffer rest later (finished (error e) d r) s (x, _) =
      ap (λ n. returned (error e) n d) (count buffer rest later r s x)
  report-advance buffer rest later (finished incomplete d r) s x =
      ap (λ n. returned incomplete n d) (count buffer rest later r s x)
  report-advance buffer rest later Outcome.panicked s x = refl
  report-advance buffer rest later Outcome.out_of_fuel s x = refl

  module _ (measure : D → Bytes → ℕ) (low : Lowers turn measure) (stable : IsStable turn)
      (enough : (d : D) (buffer : Bytes) → measure d buffer < fuel buffer) where
    report-Continues :
        (buffer later : Bytes) (o w : Outcome D M E)
        → Ends (Left buffer) AnyMessage AnyError (Unit {0}) o
        → Resumes turn measure low stable later o w
        → Continues
            (decode turn)
            buffer
            later
            (report (length buffer) o)
            (report (length (buffer ++ later)) w)
    unfolding report decode
    report-Continues buffer later (finished (complete m) d rest) w (x, _) h =
        let same : length (buffer ++ later) - length (rest ++ later) ≡ length buffer - length rest =
          omega (arith, length-append buffer later, length-append rest later) in
        rw h (ap (λ n. returned (complete m) n d) same)
    report-Continues buffer later (finished (error e) d rest) w x h = tt
    report-Continues buffer later (finished incomplete d rest) w x h =
        rw (h (fuel (rest ++ later)) (enough d (rest ++ later))) (
          report-advance buffer rest later (runs d (rest ++ later)) x (runs-Left d (rest ++ later))
          ∙ ap (λ b. advance (length buffer - length rest) (decode turn d (b ++ later)))
              (IsSuffix_lem rest buffer x).1)
    report-Continues buffer later Outcome.panicked w x h = rw h
    report-Continues buffer later Outcome.out_of_fuel w x h = tt

    pub decode-Continues :
        (d : D) (buffer later : Bytes)
        → Continues
            (decode turn)
            buffer
            later
            (decode turn d buffer)
            (decode turn d (buffer ++ later))
    unfolding decode
    decode-Continues d buffer later =
        report-Continues buffer later (runs d buffer) (runs d (buffer ++ later))
          (runs-Left d buffer)
          (run-Resumes turn measure low stable later _ _ d buffer (enough d (buffer ++ later)))
