-- ===== src/Header/Numbers.antt =====
-- The decimal numbers of header values: `str::parse` at an unsigned type with a largest value, and
-- `to_string`.
use native.Mathlib.Nat.{pow-suc}
use rtsp_rs.Prelude.{
  sym, refl, ℕ, false, true, zero, suc, ◌+◌, ◌-◌, ◌*◌, ◌/◌, ◌%◌, ◌^◌, ◌≤◌, ◌<◌, ◌≡◌, ap, ◌∙◌, ◌||◌,
  [], ◌∷◌, ◌==◌, ltb, if◌then◌else◌, Bytes, Result, ok, err, arith, inl, inr, Bool-cases,
}

-- `core::num::IntErrorKind`, as far as an unsigned type gives it.
pub data IntErrorKind : Type 0 where
  empty invalid_digit pos_overflow : IntErrorKind

-- The digits after the value so far.
pub parse_digits : ℕ → ℕ → Bytes → Result ℕ IntErrorKind
parse_digits max value [] = ok value
parse_digits max value (c ∷ cs) =
    let value' = value * 10 + (c - b'0') in
    let rest = parse_digits max value' cs in
    if ltb c b'0' || ltb b'9' c
    then err invalid_digit
    else if ltb max (value * 10)
    then err pos_overflow
    else if ltb max value'
    then err pos_overflow
    else rest

unfoldable pub parse : ℕ → Bytes → Result ℕ IntErrorKind
unfolding parse_digits
parse max [] = err empty
parse max (c ∷ []) =
    if c == b'+' || c == b'-' then err invalid_digit else parse_digits max 0 (c ∷ [])
parse max (c ∷ d ∷ cs) =
    if c == b'+' then parse_digits max 0 (d ∷ cs) else parse_digits max 0 (c ∷ d ∷ cs)

-- The digits of a number in front of `rest`, on fuel: one unit for each digit.
unfoldable pub digits : ℕ → ℕ → Bytes → Bytes
digits zero n rest = rest
digits (suc fuel) n rest =
    let rest' = (b'0' + n % 10) ∷ rest in
    let more = digits fuel (n / 10) rest' in if n / 10 == 0 then rest' else more

-- Twenty digits hold every number of 64 bits.
unfoldable pub to_string : ℕ → Bytes
unfolding digits
to_string n = digits 20 n []

parse_digits-digit :
    (max value d : ℕ) (rest : Bytes)
    → d < 10
    → value * 10 + d ≤ max
    → parse_digits max value ((b'0' + d) ∷ rest) ≡ parse_digits max (value * 10 + d) rest
unfolding parse_digits
parse_digits-digit max value d rest h k =
    let e : b'0' + d - b'0' ≡ d = omega arith in rw e (ground arith)

parse_digits-digits :
    (max fuel n : ℕ) (rest : Bytes)
    → n < 10 ^ fuel
    → n ≤ max
    → parse_digits max 0 (digits fuel n rest) ≡ parse_digits max n rest
unfolding digits
parse_digits-digits max zero n rest h k = let e : n ≡ 0 = omega arith in rw e
parse_digits-digits max (suc fuel) n rest h k = elim (Bool-cases (n / 10 == 0)) [
  | inl last ↦ rw last (
      let small : n < 10 = ground arith in
      let e : 0 * 10 + n % 10 ≡ n = omega arith in
      parse_digits-digit max 0 (n % 10) rest (omega arith) (omega arith)
      ∙ ap (λ v. parse_digits max v rest) e)
  | inr more ↦ rw more (
      let e : n / 10 * 10 + n % 10 ≡ n = omega arith in
      parse_digits-digits max fuel (n / 10) ((b'0' + n % 10) ∷ rest)
        (omega (arith, rw pow-suc at h)) (omega arith)
      ∙ parse_digits-digit max (n / 10) (n % 10) rest (omega arith) (omega arith)
      ∙ ap (λ v. parse_digits max v rest) e)
]

-- The first byte of what `digits` writes is a digit.
digits-head :
    (fuel n : ℕ) (rest : Bytes)
    → (d : ℕ) × (t : Bytes) × (digits (suc fuel) n rest ≡ (b'0' + d) ∷ t) × (d < 10)
unfolding digits
digits-head zero n rest = (n % 10, rest, ground arith, omega arith)
digits-head (suc fuel) n rest = elim (Bool-cases (n / 10 == 0)) [
  | inl last ↦ (n % 10, rest, rw last, omega arith)
  | inr more ↦ rw more (digits-head fuel (n / 10) ((b'0' + n % 10) ∷ rest))
]

parse-digit :
    (max d : ℕ) (t : Bytes)
    → d < 10
    → parse max ((b'0' + d) ∷ t) ≡ parse_digits max 0 ((b'0' + d) ∷ t)
unfolding parse
parse-digit max d [] h = ground arith
parse-digit max d (c ∷ t) h = ground arith

pub parse-to_string : (max n : ℕ) → n ≤ max → n < 10 ^ 20 → parse max (to_string n) ≡ ok n
unfolding to_string
parse-to_string max n h k =
    let (d, t, e, small) = digits-head 19 n [] in
    ap (parse max) e
    ∙ parse-digit max d t small
    ∙ ap (parse_digits max 0) (sym e)
    ∙ unfold parse_digits in parse_digits-digits max 20 n [] k h

-- A number of three digits.
pub to_string_three_digits :
    (n : ℕ)
    → 100 ≤ n
    → n < 1000
    → to_string n ≡ (b'0' + n / 100) ∷ (b'0' + n / 10 % 10) ∷ (b'0' + n % 10) ∷ []
unfolding to_string digits
to_string_three_digits n h k =
    let second : (n / 10 == 0) ≡ false = ground arith in
    let third : (n / 10 / 10 == 0) ≡ false = ground arith in
    let last : (n / 10 / 10 / 10 == 0) ≡ true = ground arith in
    let first : n / 10 / 10 % 10 ≡ n / 100 = omega arith in rw (second, third, last, first) refl
