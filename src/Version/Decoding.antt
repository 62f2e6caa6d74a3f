-- ===== src/Version/Decoding.antt =====
-- rtsp-common/src/version.rs: which bytes are decoded as a version.
use rtsp_rs.Prelude.{
  ◌++◌, drop, length-map, ℕ, ◌≡◌, ◌↔◌, refl, sym, ap, ◌∙◌, [], ◌∷◌, ◌==◌, ==_iff, map, Bytes, bytes,
  length, take, bytes_eq, bytes_eq_iff, ok, ◌>>=◌, to_ascii_uppercase, Bool-cases, inl, inr, false,
  true, arith,
}
use rtsp_rs.Version.{Version, rtsp1_0, rtsp2_0, as_encoded, checked_digit, select, try_decode}

-- The bytes behind the name of the protocol.
abbrev number : Version → Bytes
number rtsp1_0 = bytes "1.0"
number rtsp2_0 = bytes "2.0"

number-accepted :
    (f h : ℕ) (version : Version)
    → (checked_digit f >>= (λ major. checked_digit h >>= (λ minor. select major minor)))
      ≡ ok version
    → (to_ascii_uppercase f ∷ to_ascii_uppercase b'.' ∷ to_ascii_uppercase h ∷ []) ≡ number version
unfolding checked_digit select to_ascii_uppercase
number-accepted f h rtsp1_0 e = ground arith
number-accepted f h rtsp2_0 e = ground arith

accepted-number :
    (f g h : ℕ) (version : Version)
    → (to_ascii_uppercase f ∷ to_ascii_uppercase g ∷ to_ascii_uppercase h ∷ []) ≡ number version
    → (g ≡ b'.')
      × ((checked_digit f >>= (λ major. checked_digit h >>= (λ minor. select major minor)))
          ≡ ok version)
unfolding checked_digit select to_ascii_uppercase
accepted-number f g h rtsp1_0 e = ground arith
accepted-number f g h rtsp2_0 e = ground arith

as_encoded-number : (version : Version) → as_encoded version ≡ bytes "RTSP/" ++ number version
unfolding as_encoded
as_encoded-number rtsp1_0 = refl
as_encoded-number rtsp2_0 = refl

module _ (a b c d e f g h : ℕ) (version : Version) where
  abbrev name : Bytes
  name =
      to_ascii_uppercase a
      ∷ to_ascii_uppercase b
      ∷ to_ascii_uppercase c
      ∷ to_ascii_uppercase d
      ∷ to_ascii_uppercase e
      ∷ []

  abbrev tail : Bytes
  tail = to_ascii_uppercase f ∷ to_ascii_uppercase g ∷ to_ascii_uppercase h ∷ []

  abbrev value : Bytes
  value = a ∷ b ∷ c ∷ d ∷ e ∷ f ∷ g ∷ h ∷ []

  decoded : try_decode value ≡ ok version → map to_ascii_uppercase value ≡ as_encoded version
  unfolding try_decode as_encoded
  decoded p = elim (Bool-cases (bytes_eq name (bytes "RTSP/"))) [
    | inl named ↦ elim (Bool-cases (g == b'.')) [
      | inl dot ↦
          let same_name : name ≡ bytes "RTSP/" = (bytes_eq_iff name (bytes "RTSP/")).0 named in
          let point : g ≡ b'.' = (==_iff g b'.').0 dot in
          let rest : tail ≡ number version =
            rw point (number-accepted f h version (rw (named, dot) at p)) in
          ap (λ n. n ++ tail) same_name
          ∙ ap (λ n. bytes "RTSP/" ++ n) rest
          ∙ sym (as_encoded-number version)
      | inr other ↦ let refused = rw (named, other) at p in ground arith
    ]
    | inr other ↦ let refused = rw other at p in ground arith
  ]

  encoded : map to_ascii_uppercase value ≡ as_encoded version → try_decode value ≡ ok version
  unfolding try_decode as_encoded
  encoded p =
      let spelled : map to_ascii_uppercase value ≡ bytes "RTSP/" ++ number version =
        p ∙ as_encoded-number version in
      let named : bytes_eq name (bytes "RTSP/") ≡ true =
        (bytes_eq_iff name (bytes "RTSP/")).1 (ap (take 5) spelled) in
      let rest = accepted-number f g h version (ap (drop 5) spelled) in
      let dot : (g == b'.') ≡ true = (==_iff g b'.').1 rest.0 in rw (named, dot) rest.1

length-as_encoded : (version : Version) → length (as_encoded version) ≡ 8
unfolding as_encoded
length-as_encoded rtsp1_0 = refl
length-as_encoded rtsp2_0 = refl

other_length :
    (v : Bytes) (version : Version)
    → (length v == 8) ≡ false
    → (try_decode v ≡ ok version) ↔ (map to_ascii_uppercase v ≡ as_encoded version)
unfolding try_decode as_encoded
other_length v version e = (
  λ p. let refused = rw e at p in ground arith,
  λ p.
      let same : length v ≡ 8 =
        sym (length-map to_ascii_uppercase v) ∙ ap length p ∙ length-as_encoded version in
      let tested : (length v == 8) ≡ true = (==_iff (length v) 8).1 same in ground arith,
)

-- Exactly the bytes that spell a version, in letters of either case, are decoded as it.
pub try_decode-as_encoded :
    (v : Bytes) (version : Version)
    → (try_decode v ≡ ok version) ↔ (map to_ascii_uppercase v ≡ as_encoded version)
try_decode-as_encoded (a ∷ b ∷ c ∷ d ∷ e ∷ f ∷ g ∷ h ∷ []) version =
    (decoded a b c d e f g h version, encoded a b c d e f g h version)
try_decode-as_encoded v version = other_length v version (ground arith)
