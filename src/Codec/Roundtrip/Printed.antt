-- ===== src/Codec/Roundtrip/Printed.antt =====
-- rtsp-2/src/protocol/codec: the searches and the trimming of the decoders on what the encoders write.
use rtsp_rs.Prelude.{
  ℕ, zero, suc, ◌+◌, ◌≤◌, ◌<◌, ◌≡◌, refl, ap, ◌∙◌, not, Bool, true, false, [], ◌∷◌, ◌++◌, ◌==◌,
  Bytes, length, take, drop, take-append, take_all, get_or, some, all, arith,
}
use rtsp_rs.Syntax.{is_blank}
use rtsp_rs.Codec.Decoder.{trim_end, trim_header_name, trim_header_value}
use rtsp_rs.Codec.Decoder.Search.{find_byte, find_line_break, find_value_end, ends_at}

-- No byte of the list is `byte`.
abbrev pub lacks : ℕ → Bytes → Bool
lacks byte = all (λ c. not (c == byte))

abbrev pub starts_nonblank : Bytes → Bool
starts_nonblank [] = false
starts_nonblank (c ∷ cs) = not (is_blank c)

-- A list that is empty, or does not start with a blank.
abbrev pub no_leading_blank : Bytes → Bool
no_leading_blank [] = true
no_leading_blank (c ∷ cs) = not (is_blank c)

pub drop-length :
    (value rest : Bytes) (n : ℕ) → drop (length value + n) (value ++ rest) ≡ drop n rest
drop-length [] rest n = ap (λ (k : ℕ). drop k rest) (omega arith)
drop-length (a ∷ value) rest n =
    ap (λ (k : ℕ). drop k (a ∷ (value ++ rest))) {y = suc (length value + n)} (omega arith)
    ∙ drop-length value rest n

pub take-length : (value rest : Bytes) → take (length value) (value ++ rest) ≡ value
take-length value rest = take-append (length value) value rest (omega arith) ∙ take_all value

pub find_byte-printed :
    (byte max : ℕ) (value rest : Bytes)
    → lacks byte value ≡ true
    → length value ≤ max
    → find_byte byte (suc max) (value ++ (byte ∷ rest)) ≡ some (length value)
unfolding find_byte
find_byte-printed byte max [] rest h le = ground arith
find_byte-printed byte zero (a ∷ value) rest h le = absurd (omega arith)
find_byte-printed byte (suc max) (a ∷ value) rest h le =
    ground (arith, find_byte-printed byte max value rest)

pub find_line_break-printed :
    (max : ℕ) (value rest : Bytes)
    → lacks b'\r' value ≡ true
    → length value ≤ max
    → find_line_break (suc max) (value ++ (b'\r' ∷ b'\n' ∷ rest)) ≡ some (length value)
unfolding find_line_break
find_line_break-printed max [] rest h le = refl
find_line_break-printed zero (a ∷ value) rest h le = absurd (omega arith)
find_line_break-printed (suc max) (a ∷ []) rest h le = ground arith
find_line_break-printed (suc max) (a ∷ b ∷ value) rest h le =
    ground (arith, find_line_break-printed max (b ∷ value) rest)

pub find_value_end-printed :
    (max index : ℕ) (value rest : Bytes)
    → lacks b'\r' value ≡ true
    → length value ≤ max
    → starts_nonblank rest ≡ true
    → find_value_end (suc max) index (value ++ (b'\r' ∷ b'\n' ∷ rest))
      ≡ ends_at (index + length value)
unfolding find_value_end
find_value_end-printed max index value [] h le s = cc
find_value_end-printed max index [] (c ∷ rest) h le s = ground arith
find_value_end-printed zero index (a ∷ value) (c ∷ rest) h le s = absurd (omega arith)
find_value_end-printed (suc max) index (a ∷ []) (c ∷ rest) h le s = ground arith
find_value_end-printed (suc max) index (a ∷ b ∷ value) (c ∷ rest) h le s =
    ground (arith, find_value_end-printed max (index + 1) (b ∷ value) (c ∷ rest))

-- The space that the encoders write is trimmed, and nothing else.
pub trim_header_value-printed :
    (value : Bytes) → no_leading_blank value ≡ true → trim_header_value (b' ' ∷ value) ≡ value
unfolding trim_header_value
trim_header_value-printed [] h = refl
trim_header_value-printed (c ∷ value) h = ground arith

all-get_or :
    (p : ℕ → Bool) (xs : Bytes) (i : ℕ) → all p xs ≡ true → i < length xs → p (get_or xs i 0) ≡ true
all-get_or p [] i h lt = absurd (omega arith)
all-get_or p (x ∷ xs) zero h lt = ground arith
all-get_or p (x ∷ xs) (suc i) h lt = ground (arith, all-get_or p xs i)

-- A name with no blank is left as it is.
trim_end-unblank :
    (name : Bytes) (n : ℕ)
    → all (λ c. not (is_blank c)) name ≡ true
    → n ≤ length name
    → trim_end name n ≡ n
unfolding trim_end
trim_end-unblank name zero h le = refl
trim_end-unblank name (suc n) h le =
    let unblank : not (is_blank (get_or name n 0)) ≡ true =
      all-get_or (λ c. not (is_blank c)) name n h (omega arith) in
    ground arith

pub trim_header_name-printed :
    (name : Bytes) → all (λ c. not (is_blank c)) name ≡ true → trim_header_name name ≡ name
unfolding trim_header_name
trim_header_name-printed name h =
    ap (λ (k : ℕ). take k name) (trim_end-unblank name (length name) h (omega arith))
    ∙ take_all name
