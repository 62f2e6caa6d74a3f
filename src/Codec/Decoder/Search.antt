-- ===== src/Codec/Decoder/Search.antt =====
-- The searches of the decoders for a delimiter: `buffer.iter().take(max).position(..)` for a byte, and
-- the walk of `decode_header_value` over `buffer.windows(2)` for the line break that ends a value.
-- What a search finds in a buffer it finds at the same place with more bytes behind.
use mathlib.Core.Option
use rtsp_rs.Prelude.{
  ℕ, zero, suc, ◌+◌, ◌≤◌, ◌<◌, ◌≡◌, ◌&&◌, false, inl, inr, Bool-cases, [], ◌∷◌, ◌++◌, ◌==◌,
  if◌then◌else◌, Bytes, length, take, position, Option, none, some, arith,
}
use rtsp_rs.Syntax.{is_blank}

-- The first occurrence of a byte among the first `max` bytes.
unfoldable pub find_byte : ℕ → ℕ → Bytes → Option ℕ
unfolding position
find_byte byte max buffer = position (λ c. c == byte) (take max buffer)

-- What the walk over the windows gives: the place of the line break that ends the value; a line
-- break at the end of the buffer, so that it is not known yet whether the value goes on; or neither
-- among the windows taken.
pub data ValueEnd : Type 0 where
  ends_at : ℕ → ValueEnd
  at_end_of_buffer not_found : ValueEnd

-- `windows` more windows are taken, and `index` is the place of the first.
unfoldable pub find_value_end : ℕ → ℕ → Bytes → ValueEnd
find_value_end zero index buffer = not_found
find_value_end (suc windows) index [] = not_found
find_value_end (suc windows) index (a ∷ []) = not_found
find_value_end (suc windows) index (a ∷ b ∷ []) =
    if a == b'\r' && b == b'\n' then at_end_of_buffer else not_found
find_value_end (suc windows) index (a ∷ b ∷ c ∷ rest) =
    let further = find_value_end windows (index + 1) (b ∷ c ∷ rest) in
    if a == b'\r' && b == b'\n' then if is_blank c then further else ends_at index else further

abbrev pub Found : ℕ → ℕ → Bytes → Bytes → Option ℕ → Type 0
Found byte max buffer later none = Unit {0}
Found byte max buffer later (some i) =
    (i < length buffer) × (find_byte byte max (buffer ++ later) ≡ some i)

-- An index below the length that is found again in the longer buffer.
pub find_byte-Found :
    (byte max : ℕ) (buffer later : Bytes) → Found byte max buffer later (find_byte byte max buffer)
unfolding find_byte
find_byte-Found byte zero buffer later = tt
find_byte-Found byte (suc max) [] later = tt
find_byte-Found byte (suc max) (c ∷ cs) later = elim (Bool-cases (c == byte)) [
  | inl hit ↦ rw hit (omega arith, rw hit)
  | inr miss ↦ rw miss (shift miss (find_byte byte max cs) (find_byte-Found byte max cs later))
]
  where
    shift :
        ((c == byte) ≡ false)
        → (o : Option ℕ) → Found byte max cs later o
        → Found byte (suc max) (c ∷ cs) later (Option.map suc o)
    shift miss none h = tt
    shift miss (some i) h = (omega arith, rw (miss, h.1))

abbrev pub Ends : ℕ → ℕ → Bytes → Bytes → ValueEnd → Type 0
Ends windows index buffer later (ends_at i) =
    (index ≤ i)
    × (i + 2 < index + length buffer)
    × (find_value_end windows index (buffer ++ later) ≡ ends_at i)
Ends windows index buffer later _ = Unit {0}

pub find_value_end-Ends :
    (windows index : ℕ) (buffer later : Bytes)
    → Ends windows index buffer later (find_value_end windows index buffer)
unfolding find_value_end
find_value_end-Ends zero index buffer later = tt
find_value_end-Ends (suc windows) index [] later = tt
find_value_end-Ends (suc windows) index (a ∷ []) later = tt
find_value_end-Ends (suc windows) index (a ∷ b ∷ []) later = ground arith
find_value_end-Ends (suc windows) index (a ∷ b ∷ c ∷ rest) later =
    ground (arith, find_value_end-Ends windows (index + 1) (b ∷ c ∷ rest) later)

-- `buffer.windows(2).take(max).position(..)` for a line break.
unfoldable pub find_line_break : ℕ → Bytes → Option ℕ
find_line_break zero buffer = none
find_line_break (suc max) [] = none
find_line_break (suc max) (a ∷ []) = none
find_line_break (suc max) (a ∷ b ∷ rest) =
    let further = Option.map suc (find_line_break max (b ∷ rest)) in
    if a == b'\r' && b == b'\n' then some 0 else further

abbrev pub LineFound : ℕ → Bytes → Bytes → Option ℕ → Type 0
LineFound max buffer later none = Unit {0}
LineFound max buffer later (some i) =
    (i + 2 ≤ length buffer) × (find_line_break max (buffer ++ later) ≡ some i)

pub find_line_break-LineFound :
    (max : ℕ) (buffer later : Bytes) → LineFound max buffer later (find_line_break max buffer)
unfolding find_line_break
find_line_break-LineFound zero buffer later = tt
find_line_break-LineFound (suc max) [] later = tt
find_line_break-LineFound (suc max) (a ∷ []) later = tt
find_line_break-LineFound (suc max) (a ∷ b ∷ rest) later =
    elim (Bool-cases (a == b'\r' && b == b'\n')) [
      | inl hit ↦ rw hit (omega arith, rw hit)
      | inr miss ↦ rw miss (
          shift miss (find_line_break max (b ∷ rest))
            (find_line_break-LineFound max (b ∷ rest) later))
    ]
  where
    shift :
        ((a == b'\r' && b == b'\n') ≡ false)
        → (o : Option ℕ) → LineFound max (b ∷ rest) later o
        → LineFound (suc max) (a ∷ b ∷ rest) later (Option.map suc o)
    shift miss none h = tt
    shift miss (some i) h = (omega arith, rw (miss, h.1))
