-- ===== src/Syntax/Whitespace.antt =====
-- rtsp-2/src/syntax.rs, `trim_whitespace`: texts without white space at their ends.
pub mod Ends
use rtsp_rs.Prelude.{
  ℕ, zero, suc, ◌≡◌, refl, ap, ◌∙◌, Bool, true, false, not, ◌&&◌, ◌||◌, [], ◌∷◌, ◌==◌,
  if◌then◌else◌, Bytes, length, all, arith, Bool-cases, inl, inr,
}
use rtsp_rs.Syntax.{is_blank}

-- `trim_start_matches("\r\n")` and `trim_start_matches` of a blank.
unfoldable pub trim_start_line_breaks : Bytes → Bytes
trim_start_line_breaks [] = []
trim_start_line_breaks (a ∷ []) = a ∷ []
trim_start_line_breaks (a ∷ b ∷ rest) =
    let more = trim_start_line_breaks rest in
    if a == b'\r' && b == b'\n' then more else a ∷ b ∷ rest

unfoldable pub trim_start_blanks : Bytes → Bytes
trim_start_blanks [] = []
trim_start_blanks (c ∷ cs) = let more = trim_start_blanks cs in if is_blank c then more else c ∷ cs

-- `trim_end_matches` of the same.
abbrev is_line_feed : Bytes → Bool
is_line_feed [] = false
is_line_feed (c ∷ []) = c == b'\n'
is_line_feed (c ∷ d ∷ cs) = false

unfoldable pub trim_end_line_breaks : Bytes → Bytes
trim_end_line_breaks [] = []
trim_end_line_breaks (c ∷ cs) =
    let rest = trim_end_line_breaks cs in if c == b'\r' && is_line_feed rest then [] else c ∷ rest

abbrev is_empty : Bytes → Bool
is_empty [] = true
is_empty (c ∷ cs) = false

unfoldable pub trim_end_blanks : Bytes → Bytes
trim_end_blanks [] = []
trim_end_blanks (c ∷ cs) =
    let rest = trim_end_blanks cs in if is_blank c && is_empty rest then [] else c ∷ rest

-- `while string.len() != old`, on fuel: each turn but the last makes the string shorter.
unfoldable pub trim_loop : (Bytes → Bytes) → ℕ → ℕ → Bytes → Bytes
trim_loop strip zero old string = string
trim_loop strip (suc fuel) old string = elim (length string == old) [
  | true ↦ string
  | false ↦ trim_loop strip fuel (length string) (strip string)
]

unfoldable pub strip_start : Bytes → Bytes
unfolding trim_start_line_breaks trim_start_blanks
strip_start string = trim_start_blanks (trim_start_line_breaks string)

unfoldable pub strip_end : Bytes → Bytes
unfolding trim_end_line_breaks trim_end_blanks
strip_end string = trim_end_blanks (trim_end_line_breaks string)

unfoldable pub trim_whitespace_left : Bytes → Bytes
unfolding trim_loop strip_start
trim_whitespace_left string = trim_loop strip_start (suc (suc (length string))) 0 string

unfoldable pub trim_whitespace_right : Bytes → Bytes
unfolding trim_loop strip_end
trim_whitespace_right string = trim_loop strip_end (suc (suc (length string))) 0 string

unfoldable pub trim_whitespace : Bytes → Bytes
unfolding trim_whitespace_left trim_whitespace_right
trim_whitespace string = trim_whitespace_right (trim_whitespace_left string)

abbrev pub is_visible : ℕ → Bool
is_visible c = not (is_blank c || c == b'\r' || c == b'\n')

strip_start-visible : (cs : Bytes) → all is_visible cs ≡ true → strip_start cs ≡ cs
unfolding strip_start trim_start_line_breaks trim_start_blanks
strip_start-visible [] h = refl
strip_start-visible (a ∷ []) h = ground arith
strip_start-visible (a ∷ b ∷ cs) h = ground arith

strip_start-blank :
    (c : ℕ) (cs : Bytes) → is_blank c ≡ true → all is_visible cs ≡ true → strip_start (c ∷ cs) ≡ cs
unfolding strip_start trim_start_line_breaks trim_start_blanks
strip_start-blank c [] h k = ground arith
strip_start-blank c (a ∷ []) h k = ground arith
strip_start-blank c (a ∷ b ∷ cs) h k = ground arith

trim_end_line_breaks-visible :
    (cs : Bytes) → all is_visible cs ≡ true → trim_end_line_breaks cs ≡ cs
unfolding trim_end_line_breaks
trim_end_line_breaks-visible [] h = refl
trim_end_line_breaks-visible (c ∷ cs) h = ground (arith, trim_end_line_breaks-visible cs)

trim_end_blanks-visible : (cs : Bytes) → all is_visible cs ≡ true → trim_end_blanks cs ≡ cs
unfolding trim_end_blanks
trim_end_blanks-visible [] h = refl
trim_end_blanks-visible (c ∷ cs) h = ground (arith, trim_end_blanks-visible cs)

strip_end-visible : (cs : Bytes) → all is_visible cs ≡ true → strip_end cs ≡ cs
unfolding strip_end
strip_end-visible cs h =
    ap trim_end_blanks (trim_end_line_breaks-visible cs h) ∙ trim_end_blanks-visible cs h

module _ (strip : Bytes → Bytes) (string : Bytes) (same : strip string ≡ string) where
  -- The loop ends at once where there is nothing to strip.
  pub loop-same : (fuel old : ℕ) → trim_loop strip fuel old string ≡ string
  unfolding trim_loop
  loop-same zero old = refl
  loop-same (suc fuel) old = elim (Bool-cases (length string == old)) [
    | inl e ↦ rw (e, trim_loop) refl
    | inr e ↦
        rw (e, trim_loop)
          (ap (trim_loop strip fuel (length string)) same ∙ loop-same fuel (length string))
  ]

pub trim_whitespace-visible : (cs : Bytes) → all is_visible cs ≡ true → trim_whitespace cs ≡ cs
unfolding trim_whitespace trim_whitespace_left trim_whitespace_right
trim_whitespace-visible cs h =
    ap (λ l. trim_loop strip_end (suc (suc (length l))) 0 l)
      (loop-same strip_start cs (strip_start-visible cs h) (suc (suc (length cs))) 0)
    ∙ loop-same strip_end cs (strip_end-visible cs h) (suc (suc (length cs))) 0

-- A blank in front is taken.
pub trim_whitespace-blank :
    (c : ℕ) (cs : Bytes)
    → is_blank c ≡ true
    → all is_visible cs ≡ true
    → trim_whitespace (c ∷ cs) ≡ cs
unfolding trim_whitespace trim_whitespace_left trim_whitespace_right
trim_whitespace-blank c cs h k =
    let first : trim_loop strip_start (suc (suc (length (c ∷ cs)))) 0 (c ∷ cs) ≡ cs =
      unfold trim_loop in
      let ne : (length (c ∷ cs) == 0) ≡ false = ground arith in
      rw (ne, trim_loop)
        (ap (trim_loop strip_start (suc (length (c ∷ cs))) (length (c ∷ cs)))
            (strip_start-blank c cs h k)
          ∙ loop-same strip_start cs (strip_start-visible cs k) (suc (length (c ∷ cs)))
              (length (c ∷ cs))) in
    ap (λ l. trim_loop strip_end (suc (suc (length l))) 0 l) first
    ∙ loop-same strip_end cs (strip_end-visible cs k) (suc (suc (length cs))) 0
