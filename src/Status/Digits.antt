-- ===== src/Status/Digits.antt =====
-- rtsp-2/src/status.rs: the conversions between status codes, their numbers and their bytes.
use rtsp_rs.Prelude.{
  ℕ, ◌+◌, ◌*◌, ◌≤◌, ◌<◌, ◌≡◌, ◌≢◌, refl, ap, ◌∙◌, sym, [], ◌∷◌, Bool, true, false, none, ok, arith,
}
use rtsp_rs.Status.{
  StatusCode, to_code, try_from, named, named_from_451, try_from_bytes, class, extension,
}

named_from_451-to_code : (value : ℕ) → to_code (named_from_451 value) ≡ value
unfolding named_from_451 to_code
named_from_451-to_code value = ground arith

to_code-named : (value : ℕ) → to_code (named value) ≡ value
unfolding named to_code
to_code-named value = ground (arith, named_from_451-to_code value)

class-ne-none :
    (status : StatusCode) → 100 ≤ to_code status → to_code status < 600 → class status ≢ none
unfolding class
class-ne-none status low high = ground arith

-- A number that is decoded is that of its status code, which has a class: `class` does not panic.
pub to_code-try_from :
    (value : ℕ) (status : StatusCode)
    → try_from value ≡ ok status
    → (to_code status ≡ value) × (class status ≢ none)
unfolding try_from class
to_code-try_from value status e =
    let parts : (100 ≤ value) × (value < 600) × (named value ≡ status) = ground arith in
    let code : to_code status ≡ value = ap to_code (sym parts.2) ∙ to_code-named value in
    (code, class-ne-none status (omega arith) (omega arith))

pub try_from-range :
    (value : ℕ) (status : StatusCode) → try_from value ≡ ok status → (100 ≤ value) × (value < 600)
unfolding try_from
try_from-range value status e = ground arith

-- With digits the bytes are decoded as the number that they spell, but a byte that is no digit is not
-- refused: ten more in the second byte count as one more in the first.
pub try_from_bytes_lem :
    (a b c : ℕ)
    → a ≤ 9
    → b ≤ 9
    → c ≤ 9
    → (try_from_bytes ((a + b'0') ∷ (b + b'0') ∷ (c + b'0') ∷ []) ≡ try_from (a * 100 + b * 10 + c))
      × (try_from_bytes ((a + b'0') ∷ (b + 10 + b'0') ∷ (c + b'0') ∷ [])
          ≡ try_from ((a + 1) * 100 + b * 10 + c))
unfolding try_from_bytes
try_from_bytes_lem a b c ha hb hc = (ap try_from (omega arith), ap try_from (omega arith))

abbrev pub is_standard : StatusCode → Bool
is_standard (extension code) = false
is_standard _ = true

-- The number of a standard status code is decoded to it.
pub try_from-to_code :
    (status : StatusCode) → is_standard status ≡ true → try_from (to_code status) ≡ ok status
unfolding to_code try_from named named_from_451
try_from-to_code (extension code) h = ground arith
try_from-to_code _ h = refl
