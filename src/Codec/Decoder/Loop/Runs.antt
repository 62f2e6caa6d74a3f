-- ===== src/Codec/Decoder/Loop/Runs.antt =====
-- The loop of `Decoder::decode` on a buffer whose turns are known: turns that continue, and the one
-- that breaks.
use rtsp_rs.Prelude.{ℕ, suc, ◌+◌, ◌-◌, ◌<◌, ◌≡◌, refl, ap, ◌∙◌, Bytes, length, arith}
use rtsp_rs.Codec.Decoder.{DecodeResult}
use rtsp_rs.Codec.Decoder.Loop.{Turn, again, broke, finished, run}
use rtsp_rs.Codec.Decoder.Loop.Fuel.{Lowers, run-suc, run_fuel}
use rtsp_rs.Codec.Decoder.Loop.Report.{returned, fuel, report, decode}

module _ {D M E : Type 0} (turn : D → Bytes → Turn D M E) where
  -- Some turns lead from one decoder and buffer to another.
  abbrev pub RunsTo : D → Bytes → D → Bytes → Type 0
  RunsTo d b d' b' = (n : ℕ) × ((fuel : ℕ) → run turn (n + fuel) d b ≡ run turn fuel d' b')

  pub RunsTo-refl : (d : D) (b : Bytes) → RunsTo d b d b
  RunsTo-refl d b = (0, λ fuel. ap (λ k. run turn k d b) (omega arith))

  pub RunsTo-turn : (d d' : D) (b b' : Bytes) → turn d b ≡ again d' b' → RunsTo d b d' b'
  RunsTo-turn d d' b b' e = (
    1,
    λ fuel.
        ap (λ k. run turn k d b) {y = suc fuel} (omega arith) ∙ run-suc turn fuel d b ∙ (rw e refl),
  )

  pub RunsTo-trans :
      (d d' d'' : D) (b b' b'' : Bytes)
      → RunsTo d b d' b'
      → RunsTo d' b' d'' b''
      → RunsTo d b d'' b''
  RunsTo-trans d d' d'' b b' b'' (n, f) (m, g) = (
    n + m,
    λ fuel. ap (λ k. run turn k d b) {y = n + (m + fuel)} (omega arith) ∙ f (m + fuel) ∙ g fuel,
  )

  module _ (measure : D → Bytes → ℕ) (low : Lowers turn measure)
      (enough : (d : D) (buffer : Bytes) → measure d buffer < fuel buffer) where
    pub decode-RunsTo :
        (d d' d'' : D) (b b' rest : Bytes) (result : DecodeResult M E)
        → RunsTo d b d' b'
        → turn d' b' ≡ broke result d'' rest
        → decode turn d b ≡ returned result (length b - length rest) d''
    unfolding decode report
    decode-RunsTo d d' d'' b b' rest result (n, f) e =
        let last : run turn (suc (measure d b)) d' b' ≡ finished result d'' rest =
          run-suc turn (measure d b) d' b' ∙ (rw e refl) in
        ap (report (length b)) (
          run_fuel turn measure low (fuel b) (n + suc (measure d b)) d b (enough d b) (omega arith)
          ∙ f (suc (measure d b))
          ∙ last)
