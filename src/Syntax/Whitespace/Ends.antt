-- ===== src/Syntax/Whitespace/Ends.antt =====
-- rtsp-2/src/syntax.rs, `trim_whitespace_left` and `trim_whitespace_right`: their loops end with
-- nothing left to trim, within the fuel.
use rtsp_rs.Prelude.{
  ℕ, zero, suc, ◌≤◌, ◌<◌, ◌≡◌, refl, ap, sym, ◌∙◌, ◌⊎◌, inl, inr, [], ◌∷◌, ◌==◌, ==_iff, Bytes,
  length, arith, Bool-cases, ◌&&◌,
}
use rtsp_rs.Syntax.{is_blank}
use rtsp_rs.Syntax.Whitespace.{
  trim_start_line_breaks, trim_start_blanks, is_line_feed, trim_end_line_breaks, is_empty,
  trim_end_blanks, trim_loop, strip_start, strip_end, loop-same, trim_whitespace_left,
  trim_whitespace_right,
}

abbrev Shrinks : Bytes → Bytes → Type 0
Shrinks string s = (s ≡ string) ⊎ (length s < length string)

Shrinks-trans : (r s t : Bytes) → Shrinks r s → Shrinks s t → Shrinks r t
Shrinks-trans r s t (inl e) (inl f) = inl (f ∙ e)
Shrinks-trans r s t (inl e) (inr l) = inr (omega (arith, ap length e))
Shrinks-trans r s t (inr l) (inl f) = inr (omega (arith, ap length f))
Shrinks-trans r s t (inr l) (inr k) = inr (omega arith)

Shrinks-le : (r s : Bytes) → Shrinks r s → length s ≤ length r
Shrinks-le r s (inl e) = omega (arith, ap length e)
Shrinks-le r s (inr l) = omega arith

trim_start_line_breaks-Shrinks : (s : Bytes) → Shrinks s (trim_start_line_breaks s)
unfolding trim_start_line_breaks
trim_start_line_breaks-Shrinks [] = inl refl
trim_start_line_breaks-Shrinks (a ∷ []) = inl refl
trim_start_line_breaks-Shrinks (a ∷ b ∷ rest) = elim (Bool-cases (a == b'\r' && b == b'\n')) [
  | inl break ↦
      rw (Shrinks, break)
        (inr (omega (arith, Shrinks-le rest _ (trim_start_line_breaks-Shrinks rest))))
  | inr other ↦ rw (Shrinks, other) (inl refl)
]

trim_start_blanks-Shrinks : (s : Bytes) → Shrinks s (trim_start_blanks s)
unfolding trim_start_blanks
trim_start_blanks-Shrinks [] = inl refl
trim_start_blanks-Shrinks (c ∷ cs) = elim (Bool-cases (is_blank c)) [
  | inl blank ↦
      rw (Shrinks, blank) (inr (omega (arith, Shrinks-le cs _ (trim_start_blanks-Shrinks cs))))
  | inr other ↦ rw (Shrinks, other) (inl refl)
]

Shrinks-cons : (c : ℕ) (cs s : Bytes) → Shrinks cs s → Shrinks (c ∷ cs) (c ∷ s)
Shrinks-cons c cs s (inl e) = inl (ap (λ l. c ∷ l) e)
Shrinks-cons c cs s (inr l) = inr (omega arith)

trim_end_line_breaks-Shrinks : (s : Bytes) → Shrinks s (trim_end_line_breaks s)
unfolding trim_end_line_breaks
trim_end_line_breaks-Shrinks [] = inl refl
trim_end_line_breaks-Shrinks (c ∷ cs) =
    elim (Bool-cases (c == b'\r' && is_line_feed (trim_end_line_breaks cs))) [
      | inl break ↦ rw (Shrinks, break) (inr (omega arith))
      | inr other ↦ rw (Shrinks, other) (Shrinks-cons c cs _ (trim_end_line_breaks-Shrinks cs))
    ]

trim_end_blanks-Shrinks : (s : Bytes) → Shrinks s (trim_end_blanks s)
unfolding trim_end_blanks
trim_end_blanks-Shrinks [] = inl refl
trim_end_blanks-Shrinks (c ∷ cs) = elim (Bool-cases (is_blank c && is_empty (trim_end_blanks cs))) [
  | inl blank ↦ rw (Shrinks, blank) (inr (omega arith))
  | inr other ↦ rw (Shrinks, other) (Shrinks-cons c cs _ (trim_end_blanks-Shrinks cs))
]

module _ (strip : Bytes → Bytes) (shrinks : (s : Bytes) → Shrinks s (strip s)) where
  -- With fuel above the length the loop leaves what a further turn does not change.
  loop-strip :
      (fuel old : ℕ) (s : Bytes)
      → length s < fuel
      → (length s ≡ old → strip s ≡ s)
      → strip (trim_loop strip fuel old s) ≡ trim_loop strip fuel old s
  unfolding trim_loop
  loop-strip zero old s h k = absurd (omega arith)
  loop-strip (suc fuel) old s h k = elim (Bool-cases (length s == old)) [
    | inl e ↦ rw (e, trim_loop) (k ((==_iff (length s) old).0 e))
    | inr e ↦
        rw (e, trim_loop)
          (turn
            (λ less. loop-strip fuel (length s) (strip s) (omega arith) (λ e. absurd (omega arith)))
            (shrinks s))
  ]
    where
      turn :
          (length (strip s) < length s
            → strip (trim_loop strip fuel (length s) (strip s))
              ≡ trim_loop strip fuel (length s) (strip s))
          → Shrinks s (strip s)
          → strip (trim_loop strip fuel (length s) (strip s))
            ≡ trim_loop strip fuel (length s) (strip s)
      turn shorter (inl same) =
          let done : trim_loop strip fuel (length s) (strip s) ≡ s =
            ap (trim_loop strip fuel (length s)) same ∙ loop-same strip s same fuel (length s) in
          ap strip done ∙ same ∙ sym done
      turn shorter (inr less) = shorter less

-- Nothing is left to trim at the start, and at the end.
pub trim_whitespace_left-strip_start :
    (s : Bytes) → strip_start (trim_whitespace_left s) ≡ trim_whitespace_left s
unfolding trim_whitespace_left
trim_whitespace_left-strip_start s =
    loop-strip strip_start
      (λ s.
        unfold strip_start in
        Shrinks-trans s _ _ (trim_start_line_breaks-Shrinks s) (trim_start_blanks-Shrinks _))
      (suc (suc (length s))) 0 s (omega arith) (empty s)
  where
    empty : (s : Bytes) → length s ≡ 0 → strip_start s ≡ s
    empty [] e = unfold strip_start trim_start_line_breaks trim_start_blanks in refl
    empty (c ∷ cs) e = absurd (omega arith)

pub trim_whitespace_right-strip_end :
    (s : Bytes) → strip_end (trim_whitespace_right s) ≡ trim_whitespace_right s
unfolding trim_whitespace_right
trim_whitespace_right-strip_end s =
    loop-strip strip_end
      (λ s.
        unfold strip_end in
        Shrinks-trans s _ _ (trim_end_line_breaks-Shrinks s) (trim_end_blanks-Shrinks _))
      (suc (suc (length s))) 0 s (omega arith) (empty s)
  where
    empty : (s : Bytes) → length s ≡ 0 → strip_end s ≡ s
    empty [] e = unfold strip_end trim_end_line_breaks trim_end_blanks in refl
    empty (c ∷ cs) e = absurd (omega arith)
