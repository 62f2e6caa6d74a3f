-- ===== src/Header/CSeq/Arithmetic.antt =====
-- rtsp-2/src/header/types/cseq.rs: the numbers stay in range, the header round trip, and how far
-- subtraction undoes addition.
use rtsp_rs.Prelude.{◌+◌, ◌%◌, ◌≤◌, ◌<◌, ◌≡◌, refl, [], ◌∷◌, List, some, ok, arith}
use rtsp_rs.Header.Value.{HeaderValue}
use rtsp_rs.Header.Numbers.{parse, to_string, parse-to_string}
use rtsp_rs.Header.CSeq.{CSeq, max_cseq, wrapping_increment, add, sub, decode, encode}

-- A sequence number in range is read back from its header.
pub decode-encode : (c : CSeq) → c ≤ max_cseq → decode (encode c) ≡ ok (some c)
unfolding decode encode
decode-encode c h =
    let e : parse 0xffff_ffff (to_string c) ≡ ok c =
      parse-to_string 0xffff_ffff c (omega arith) (omega arith) in
    ground arith

-- What the header is decoded to is in range.
pub decode-le : (values : List HeaderValue) {c : CSeq} → decode values ≡ ok (some c) → c ≤ max_cseq
unfolding decode
decode-le [] e = ground arith
decode-le (v ∷ []) e = ground arith
decode-le (v ∷ w ∷ vs) e = ground arith

-- The sum and the successor of numbers in range are in range, and the 32 bits do not overflow.
pub add_lem :
    (a b : CSeq)
    → a ≤ max_cseq
    → b ≤ max_cseq
    → (add a b ≤ max_cseq) × (add a b ≡ (a + b) % (max_cseq + 1)) × (wrapping_increment a ≡ add a 1)
unfolding add wrapping_increment
add_lem a b h k = (omega arith, omega arith, refl)

-- Subtraction undoes addition while the sum does not wrap; where it wraps, the difference is one
-- less than what was added.
pub sub-add :
    (a b : CSeq)
    → a ≤ max_cseq
    → b ≤ max_cseq
    → (a + b ≤ max_cseq → sub (add a b) a ≡ b) × (max_cseq < a + b → sub (add a b) a + 1 ≡ b)
unfolding sub add
sub-add a b h k = (λ le. ground arith, λ lt. ground arith)
