-- ===== src/Syntax/Tokens.antt =====
-- rtsp-2/src/syntax.rs, `is_token`: which bytes a token has.
use rtsp_rs.Prelude.{
  ltb→lt, ℕ, zero, suc, ◌<◌, Bool, true, false, ◌&&◌, ◌||◌, List, [], ◌∷◌, ◌≡◌, refl, inl, inr,
  arith, ◌==◌, leb, ltb, Bytes, length, get_elem?, none, map, Bool-cases, to_ascii_uppercase,
  to_ascii_lowercase,
}
use rtsp_rs.Syntax.{token_char_map, is_token_char, all_token_chars, is_token}

-- The bytes of a token as RFC 7826 lists them.
abbrev pub is_rfc_token_char : ℕ → Bool
is_rfc_token_char c =
    (leb b'a' c && leb c b'z')
    || (leb b'A' c && leb c b'Z')
    || (leb b'0' c && leb c b'9')
    || c == b'!'
    || (leb b'#' c && leb c 39)
    || c == b'*'
    || c == b'+'
    || c == b'-'
    || c == b'.'
    || c == b'^'
    || c == b'_'
    || c == b'|'
    || c == b'~'

abbrev iff : Bool → Bool → Bool
iff true b = b
iff false true = false
iff false false = true

iff-eq : (a b : Bool) → iff a b ≡ true → a ≡ b
iff-eq true b h = cc
iff-eq false true h = cc
iff-eq false false h = refl

-- Two tests that agree at every byte below a bound.
agree : (ℕ → Bool) → (ℕ → Bool) → ℕ → Bool
agree f g zero = true
agree f g (suc bound) = agree f g bound && iff (f bound) (g bound)

agree-eq : (f g : ℕ → Bool) (bound : ℕ) {c : ℕ} → agree f g bound ≡ true → c < bound → f c ≡ g c
unfolding agree
agree-eq f g zero h lt = elim lt [ ]
agree-eq f g (suc bound) {c} h lt = elim (Bool-cases (ltb c bound)) [
  | inl low ↦ agree-eq f g bound (ground arith) (ltb→lt c bound low)
  | inr high ↦
      let last : c ≡ bound = ground arith in rw last (iff-eq (f bound) (g bound) (ground arith))
]

get_elem?-none {ℓ} :
    {A : Type ℓ} (xs : List A) (i : ℕ) → ltb i (length xs) ≡ false → get_elem? xs i ≡ none
get_elem?-none [] i h = refl
get_elem?-none (x ∷ xs) zero h = ground arith
get_elem?-none (x ∷ xs) (suc i) h = get_elem?-none xs i (ground arith)

above_map : (c : ℕ) → ltb c 256 ≡ false → is_token_char c ≡ false
unfolding is_token_char
above_map c h = rw (get_elem?-none token_char_map c h)

rfc_table : agree is_token_char is_rfc_token_char 256 ≡ true
unfolding agree is_token_char
rfc_table = refl

uppercase_table : agree (λ c. is_token_char (to_ascii_uppercase c)) is_token_char 256 ≡ true
unfolding agree is_token_char to_ascii_uppercase
uppercase_table = refl

pub is_token_char_lem : (c : ℕ) → is_token_char c ≡ is_rfc_token_char c
is_token_char_lem c = elim (Bool-cases (ltb c 256)) [
  | inl low ↦ agree-eq _ _ 256 rfc_table (ground arith)
  | inr high ↦ rw (above_map c high) (ground arith)
]

pub is_token_char-to_ascii_uppercase :
    (c : ℕ) → is_token_char (to_ascii_uppercase c) ≡ is_token_char c
unfolding to_ascii_uppercase
is_token_char-to_ascii_uppercase c = elim (Bool-cases (ltb c 256)) [
  | inl low ↦ agree-eq _ _ 256 uppercase_table (ground arith)
  | inr high ↦ ground arith
]

all_token_chars-to_ascii_uppercase :
    (cs : Bytes) → all_token_chars (map to_ascii_uppercase cs) ≡ all_token_chars cs
unfolding all_token_chars
all_token_chars-to_ascii_uppercase [] = refl
all_token_chars-to_ascii_uppercase (c ∷ cs) =
    ground (arith, is_token_char-to_ascii_uppercase c, all_token_chars-to_ascii_uppercase cs)

pub is_token-to_ascii_uppercase :
    (value : Bytes) → is_token (map to_ascii_uppercase value) ≡ is_token value
unfolding is_token
is_token-to_ascii_uppercase [] = refl
is_token-to_ascii_uppercase (c ∷ cs) = all_token_chars-to_ascii_uppercase (c ∷ cs)

lowercase_table : agree (λ c. is_token_char (to_ascii_lowercase c)) is_token_char 256 ≡ true
unfolding agree is_token_char to_ascii_lowercase
lowercase_table = refl

pub is_token_char-to_ascii_lowercase :
    (c : ℕ) → is_token_char (to_ascii_lowercase c) ≡ is_token_char c
unfolding to_ascii_lowercase
is_token_char-to_ascii_lowercase c = elim (Bool-cases (ltb c 256)) [
  | inl low ↦ agree-eq _ _ 256 lowercase_table (ground arith)
  | inr high ↦ ground arith
]

all_token_chars-to_ascii_lowercase :
    (cs : Bytes) → all_token_chars (map to_ascii_lowercase cs) ≡ all_token_chars cs
unfolding all_token_chars
all_token_chars-to_ascii_lowercase [] = refl
all_token_chars-to_ascii_lowercase (c ∷ cs) =
    ground (arith, is_token_char-to_ascii_lowercase c, all_token_chars-to_ascii_lowercase cs)

pub is_token-to_ascii_lowercase :
    (value : Bytes) → is_token (map to_ascii_lowercase value) ≡ is_token value
unfolding is_token
is_token-to_ascii_lowercase [] = refl
is_token-to_ascii_lowercase (c ∷ cs) = all_token_chars-to_ascii_lowercase (c ∷ cs)
