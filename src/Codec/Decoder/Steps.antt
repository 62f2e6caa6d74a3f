-- ===== src/Codec/Decoder/Steps.antt =====
-- The methods of a decoder and the turns of its loop. A method that behaves on every buffer, with or
-- without more bytes behind, makes a turn that does, and that is all that the loop asks for.
use rtsp_rs.Prelude.{ℕ, ◌+◌, ◌<◌, ◌≡◌, ◌++◌, [], Bytes, length, IsSuffix, IsSuffix-refl}
use rtsp_rs.Codec.Decoder.{DecodeResult, complete, error, incomplete}
use rtsp_rs.Codec.Decoder.Loop.{Turn, again, broke}
use rtsp_rs.Codec.Decoder.Loop.Chunks.{SuffixTurn}
use rtsp_rs.Codec.Decoder.Loop.Fuel.{Lower, Lowers}
use rtsp_rs.Codec.Decoder.Loop.Resume.{Extends, IsStable}

-- The result of a method, the decoder after it, and the bytes left.
abbrev pub Part : Type 0 → Type 0 → Type 0
Part D E = DecodeResult (Unit {0}) E × D × Bytes

-- `match decode_result`, with what an error does to the decoder.
unfoldable pub settle : {D M E : Type 0} → (E → D → D) → Part D E → Turn D M E
settle fail (complete _, d, rest) = again d rest
settle fail (error e, d, rest) = broke (error e) (fail e d) rest
settle fail (incomplete, d, rest) = broke incomplete d rest

module _ {D E : Type 0} (rank : D → ℕ) (d : D) (buffer later : Bytes) where
  -- The method at `buffer`, and at `buffer` with `later` behind it: a complete part takes bytes or
  -- lowers the rank, and is the same with more bytes; an incomplete one has changed nothing.
  abbrev pub Consumes : Part D E → Part D E → Type 0
  Consumes (complete _, d', rest) u =
      (u ≡ (complete tt, d', rest ++ later))
      × IsSuffix rest buffer
      × (length rest + rank d' < length buffer + rank d)
  Consumes (incomplete, d', rest) u = (d' ≡ d) × (rest ≡ buffer)
  Consumes (error e, d', rest) u = IsSuffix rest buffer

abbrev pub measure : {D : Type 0} → (D → ℕ) → D → Bytes → ℕ
measure rank d buffer = length buffer + rank d

module _ {D E : Type 0} (M : Type 0) (rank : D → ℕ) where
  -- The same of turns.
  abbrev pub Steps : D → Bytes → Bytes → Turn D M E → Turn D M E → Type 0
  Steps d buffer later t u =
      Extends d buffer later t u
      × Lower (measure rank) (measure rank d buffer) t
      × SuffixTurn buffer t

  pub settle-Steps :
      (fail : E → D → D) (d : D) (buffer later : Bytes) (p u : Part D E)
      → Consumes rank d buffer later p u
      → Steps d buffer later (settle fail p) (settle fail u)
  unfolding settle
  settle-Steps fail d buffer later (complete _, d', rest) u (same, suffix, less) =
      (rw same, less, suffix)
  settle-Steps fail d buffer later (incomplete, d', rest) u (same, all) =
      ((same, all), tt, rw all (IsSuffix-refl buffer))
  settle-Steps fail d buffer later (error e, d', rest) u suffix = (tt, tt, suffix)

  module _ (turn : D → Bytes → Turn D M E)
      (steps : (d : D) (buffer later : Bytes)
        → Steps d buffer later (turn d buffer) (turn d (buffer ++ later))) where
    pub turn-Lowers : Lowers turn (measure rank)
    turn-Lowers d buffer = (steps d buffer []).1

    pub turn-IsStable : IsStable turn
    turn-IsStable d buffer later = (steps d buffer later).0

    pub turn-Suffix : (d : D) (buffer : Bytes) → SuffixTurn buffer (turn d buffer)
    turn-Suffix d buffer = (steps d buffer []).2
