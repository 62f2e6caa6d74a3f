-- ===== src/Codec/Decoder/Loop/Total.antt =====
-- What `Decoder::decode` promises when its turns keep an invariant of the decoder.
use rtsp_rs.Prelude.{
  ℕ, ◌≤◌, ◌<◌, ◌≢◌, refl, Bytes, length, arith, IsSuffix, IsSuffix-refl, IsSuffix-trans,
}
use rtsp_rs.Codec.Decoder.{complete, error, incomplete}
use rtsp_rs.Codec.Decoder.Loop.{Turn, again, broke, Outcome, finished}
use rtsp_rs.Codec.Decoder.Loop
use rtsp_rs.Codec.Decoder.Loop.Chunks.{SuffixTurn}
use rtsp_rs.Codec.Decoder.Loop.Fuel.{Lowers, run-ne-out_of_fuel}
use rtsp_rs.Codec.Decoder.Loop.Invariant.{Holds, Ends, run-Ends}
use rtsp_rs.Codec.Decoder.Loop.Report.{
  Decoded, returned, panicked, out_of_fuel, fuel, report, decode,
}

module _ {D M E : Type 0} (Sound : D → Type 0) (Allowed : M → Type 0)
    (Failed : E → D → Type 0) where
  -- A turn of a sound decoder, and what `decode` promises for a sound decoder.
  abbrev pub SoundTurn : Turn D M E → Type 0
  SoundTurn = Holds (λ d rest. Sound d) Allowed Failed ⊥

  abbrev pub Reports : Bytes → Decoded D M E → Type 0
  Reports buffer (returned (complete message) n d) = Sound d × Allowed message × (n ≤ length buffer)
  Reports buffer (returned (error e) n d) = Sound d × Failed e d × (n ≤ length buffer)
  Reports buffer (returned incomplete n d) = Sound d × (n ≤ length buffer)
  Reports buffer panicked = ⊥
  Reports buffer out_of_fuel = ⊥

  -- A sound decoder, with what is left of the buffer.
  abbrev Inv : Bytes → D → Bytes → Type 0
  Inv buffer d rest = Sound d × IsSuffix rest buffer

  report-Reports :
      (buffer : Bytes) (o : Outcome D M E)
      → o ≢ Outcome.out_of_fuel
      → Ends (Inv buffer) Allowed Failed ⊥ o
      → Reports buffer (report (length buffer) o)
  unfolding report
  report-Reports buffer (finished (complete m) d rest) ne ((s, x), a) = (s, a, omega arith)
  report-Reports buffer (finished (error e) d rest) ne ((s, x), f) = (s, f, omega arith)
  report-Reports buffer (finished incomplete d rest) ne (s, x) = (s, omega arith)
  report-Reports buffer Outcome.panicked ne h = h
  report-Reports buffer Outcome.out_of_fuel ne h = ne refl

  module _ (turn : D → Bytes → Turn D M E)
      (suffix : (d : D) (buffer : Bytes) → SuffixTurn buffer (turn d buffer))
      (keep : (d : D) (buffer : Bytes) → Sound d → SoundTurn (turn d buffer)) where
    turn-Holds :
        (buffer : Bytes) (d : D) (rest : Bytes)
        → Inv buffer d rest
        → Holds (Inv buffer) Allowed Failed ⊥ (turn d rest)
    turn-Holds buffer d rest (sound, left) = go (turn d rest) (keep d rest sound) (suffix d rest)
      where
        go :
            (t : Turn D M E)
            → SoundTurn t
            → SuffixTurn rest t
            → Holds (Inv buffer) Allowed Failed ⊥ t
        go (again d' rest') h k = (h, IsSuffix-trans rest' rest buffer k left)
        go (broke (complete m) d' rest') h k = ((h.0, IsSuffix-trans rest' rest buffer k left), h.1)
        go (broke (error e) d' rest') h k = ((h.0, IsSuffix-trans rest' rest buffer k left), h.1)
        go (broke incomplete d' rest') h k = (h, IsSuffix-trans rest' rest buffer k left)
        go Turn.panicked h k = h

    pub decode-Reports :
        (measure : D → Bytes → ℕ)
        → Lowers turn measure
        → ((d : D) (buffer : Bytes) → measure d buffer < fuel buffer)
        → (d : D) (buffer : Bytes) → Sound d
        → Reports buffer (decode turn d buffer)
    unfolding decode
    decode-Reports measure low enough d buffer sound =
        report-Reports buffer (Loop.run turn (fuel buffer) d buffer)
          (run-ne-out_of_fuel turn measure low _ d buffer (enough d buffer))
          (run-Ends (Inv buffer) Allowed Failed ⊥ turn (turn-Holds buffer) _ d buffer
            (sound, IsSuffix-refl buffer))
