-- ===== src/Header/Name/Cases.antt =====
-- rtsp-2/src/header/name.rs: header names are decoded without regard to case, and the canonical name
-- decodes to the name.
use rtsp_rs.Prelude.{
  ap, ◌∙◌, bytes_eq, ℕ, List, [], ◌∷◌, ◌≡◌, refl, map, Bytes, length, length-map, take, take-map,
  bytes_eq_iff, bytes, ok, err, Result, arith, true, to_ascii_lowercase, to_ascii_lowercase_idem,
}
use rtsp_rs.Syntax.{is_token, is_token_char}
use rtsp_rs.Syntax.Tokens.{is_token-to_ascii_lowercase}
use rtsp_rs.Header.Name.{
  canonical_name, HeaderName, HeaderNameError, accept, content_length, cseq, extension, as_str,
  to_extension, check_header_name, check_header_names, names_of_length, try_from, extension_of,
  name_eq,
}

map-to_ascii_lowercase_idem :
    (v : Bytes) → map to_ascii_lowercase (map to_ascii_lowercase v) ≡ map to_ascii_lowercase v
map-to_ascii_lowercase_idem [] = refl
map-to_ascii_lowercase_idem (c ∷ v) = cc (to_ascii_lowercase_idem c, map-to_ascii_lowercase_idem v)

pub name_eq_refl : (n : HeaderName) → name_eq n n ≡ true
unfolding name_eq extension_of
name_eq_refl (extension name lowercase) =
    (bytes_eq_iff (map to_ascii_lowercase lowercase) (map to_ascii_lowercase lowercase)).1 refl
name_eq_refl accept = refl
name_eq_refl _ = refl

-- Two outcomes of decoding that the program does not tell apart.
abbrev pub Same : Result HeaderName HeaderNameError → Result HeaderName HeaderNameError → Type 0
Same (ok m) (ok n) = name_eq m n ≡ true
Same (err e) (err f) = e ≡ f
Same (ok m) (err f) = ⊥
Same (err e) (ok n) = ⊥

to_extension-Same : (v : Bytes) → Same (to_extension v) (to_extension (map to_ascii_lowercase v))
unfolding to_extension name_eq extension_of
to_extension-Same [] = refl
to_extension-Same (c ∷ cs) = rw (is_token-to_ascii_lowercase (c ∷ cs)) (
    rw (map-to_ascii_lowercase_idem (c ∷ cs)) (
      ground (
        arith,
        bytes_eq_iff (map to_ascii_lowercase (map to_ascii_lowercase (c ∷ cs)))
            (map to_ascii_lowercase (map to_ascii_lowercase (c ∷ cs))),
      )))

check_header_name-Same :
    (v : Bytes) (n : HeaderName) (r s : Result HeaderName HeaderNameError)
    → Same r s
    → Same (check_header_name v n r) (check_header_name (map to_ascii_lowercase v) n s)
unfolding check_header_name
check_header_name-Same v n r s h =
    rw
      (
        take-map to_ascii_lowercase (length (as_str n)) v,
        map-to_ascii_lowercase_idem (take (length (as_str n)) v),
        length-map to_ascii_lowercase v,
      )
      (ground (arith, name_eq_refl n))

check_header_names-Same :
    (v : Bytes) (ns : List HeaderName)
    → Same (check_header_names v ns) (check_header_names (map to_ascii_lowercase v) ns)
unfolding check_header_names
check_header_names-Same v [] = to_extension-Same v
check_header_names-Same v (n ∷ ns) = check_header_name-Same v n _ _ (check_header_names-Same v ns)

-- Decoding does not depend on the case of the letters: the errors are the same, and the names are
-- equal for the program.
pub try_from-Same : (v : Bytes) → Same (try_from v) (try_from (map to_ascii_lowercase v))
unfolding try_from
try_from-Same v =
    rw (length-map to_ascii_lowercase v) (check_header_names-Same v (names_of_length (length v)))

-- An extension keeps the decoded bytes as its canonical name, and they are a token.
abbrev Spells : Bytes → Result HeaderName HeaderNameError → Type 0
Spells v (ok (extension name lowercase)) = (name ≡ v) × (is_token v ≡ true)
Spells v _ = Unit {0}

to_extension-Spells : (v : Bytes) → Spells v (to_extension v)
unfolding to_extension
to_extension-Spells [] = tt
to_extension-Spells (c ∷ cs) = ground arith

abbrev AllSpell : Bytes → List HeaderName → Type 0
AllSpell v [] = Unit {0}
AllSpell v (n ∷ ns) = Spells v (ok n) × AllSpell v ns

check_header_names-Spells :
    (v : Bytes) (ns : List HeaderName) → AllSpell v ns → Spells v (check_header_names v ns)
unfolding check_header_names check_header_name
check_header_names-Spells v [] h = to_extension-Spells v
check_header_names-Spells v (n ∷ ns) h = ground (arith, check_header_names-Spells v ns h.1)

names_of_length-AllSpell : (v : Bytes) (n : ℕ) → AllSpell v (names_of_length n)
unfolding names_of_length
names_of_length-AllSpell v n = ground arith

try_from-Spells : (v : Bytes) → Spells v (try_from v)
unfolding try_from
try_from-Spells v =
    check_header_names-Spells v (names_of_length (length v)) (names_of_length-AllSpell v (length v))

-- The canonical name of a decoded header name decodes to the name.
pub try_from-canonical_name :
    (v : Bytes) (n : HeaderName) → try_from v ≡ ok n → try_from (canonical_name n) ≡ ok n
try_from-canonical_name v (extension name lowercase) e =
    let spelled : (name ≡ v) × (is_token v ≡ true) = rw e at (try_from-Spells v) in
    unfold canonical_name in ap try_from spelled.0 ∙ e
try_from-canonical_name v accept e =
    unfold try_from names_of_length check_header_names check_header_name to_extension as_str
      canonical_name bytes_eq to_ascii_lowercase in
    refl
try_from-canonical_name v _ e =
    unfold try_from names_of_length check_header_names check_header_name to_extension as_str
      canonical_name bytes_eq to_ascii_lowercase in
    refl

-- The canonical name of a decoded header name is a token.
pub is_token-canonical_name :
    (v : Bytes) (n : HeaderName) → try_from v ≡ ok n → is_token (canonical_name n) ≡ true
is_token-canonical_name v (extension name lowercase) e =
    let spelled : (name ≡ v) × (is_token v ≡ true) = rw e at (try_from-Spells v) in
    unfold canonical_name in ap is_token spelled.0 ∙ spelled.1
is_token-canonical_name v accept e = unfold canonical_name is_token is_token_char in refl
is_token-canonical_name v _ e = unfold canonical_name is_token is_token_char in refl

-- A name in lower case.
pub try_from_cseq : try_from (bytes "cseq") ≡ ok cseq
unfolding try_from names_of_length check_header_names check_header_name to_extension as_str bytes_eq
    to_ascii_lowercase
try_from_cseq = refl

pub try_from_content_length : try_from (canonical_name content_length) ≡ ok content_length
unfolding try_from names_of_length check_header_names check_header_name to_extension as_str bytes_eq
    to_ascii_lowercase canonical_name
try_from_content_length = refl
