-- ===== src/Method/Cases.antt =====
-- rtsp-2/src/method.rs: methods are decoded without regard to case, and what is decoded is printed
-- so that it decodes to itself.
use rtsp_rs.Prelude.{
  ℕ, [], ◌∷◌, ◌≡◌, refl, ap, ◌∙◌, map, Bytes, length, length-map, take, take-map, bytes, bytes_eq,
  ok, arith, Bool, true, false, ◌==◌, to_ascii_uppercase, to_ascii_uppercase_idem, if◌then◌else◌,
  Result,
}
use rtsp_rs.Syntax.Tokens.{is_token-to_ascii_uppercase}
use rtsp_rs.Syntax.{is_token, is_token_char}
use rtsp_rs.Method.{
  Method, MethodError, describe, get_parameter, options, pause, play, play_notify, redirect,
  set_parameter, setup, teardown, extension, as_str, to_extension, check_method, try_from,
}

map-to_ascii_uppercase_idem :
    (v : Bytes) → map to_ascii_uppercase (map to_ascii_uppercase v) ≡ map to_ascii_uppercase v
map-to_ascii_uppercase_idem [] = refl
map-to_ascii_uppercase_idem (c ∷ v) = cc (to_ascii_uppercase_idem c, map-to_ascii_uppercase_idem v)

-- The test for `'$'` comes first, and is not changed by the conversion.
dollar-to_ascii_uppercase : (c : ℕ) → (to_ascii_uppercase c == b'$') ≡ (c == b'$')
unfolding to_ascii_uppercase
dollar-to_ascii_uppercase c = ground arith

to_extension-to_ascii_uppercase :
    (v : Bytes) → to_extension (map to_ascii_uppercase v) ≡ to_extension v
unfolding to_extension
to_extension-to_ascii_uppercase [] = refl
to_extension-to_ascii_uppercase (c ∷ v) = rw (
  dollar-to_ascii_uppercase c,
  is_token-to_ascii_uppercase (c ∷ v),
  map-to_ascii_uppercase_idem (c ∷ v),
)

check_method-to_ascii_uppercase :
    (v : Bytes) (m : Method) (r : Result Method MethodError)
    → check_method (map to_ascii_uppercase v) m r ≡ check_method v m r
unfolding check_method
check_method-to_ascii_uppercase v m r = rw (
  take-map to_ascii_uppercase (length (as_str m)) v,
  map-to_ascii_uppercase_idem (take (length (as_str m)) v),
  length-map to_ascii_uppercase v,
)

ruleset case_laws = (length-map, to_extension-to_ascii_uppercase, check_method-to_ascii_uppercase)

-- Decoding gives the same method, or the same error, whatever the case of the letters.
pub try_from-to_ascii_uppercase : (v : Bytes) → try_from (map to_ascii_uppercase v) ≡ try_from v
unfolding try_from
try_from-to_ascii_uppercase v = simp case_laws

-- An extension holds the decoded bytes, which are a token, in upper case.
abbrev Spells : Bytes → Result Method MethodError → Type 0
Spells v (ok (extension name)) = (name ≡ map to_ascii_uppercase v) × (is_token v ≡ true)
Spells v _ = Unit {0}

module _ (v : Bytes) where
  branch :
      (test : Bool) (r s : Result Method MethodError)
      → Spells v r
      → Spells v s
      → Spells v (if test then r else s)
  branch true r s h k = h
  branch false r s h k = k

  check_method-Spells :
      (m : Method) (r : Result Method MethodError)
      → Spells v (ok m)
      → Spells v r
      → Spells v (check_method v m r)
  unfolding check_method
  check_method-Spells m r h k = branch _ (ok m) r h k

to_extension-Spells : (v : Bytes) → Spells v (to_extension v)
unfolding to_extension
to_extension-Spells [] = tt
to_extension-Spells (c ∷ cs) = ground arith

try_from-Spells : (v : Bytes) → Spells v (try_from v)
unfolding try_from
try_from-Spells v = ground (
  arith,
  to_extension-Spells v,
  one play tt,
  check_method-Spells v pause _ tt (one setup tt),
  one options tt,
  check_method-Spells v describe _ tt (check_method-Spells v redirect _ tt (one teardown tt)),
  one play_notify tt,
  check_method-Spells v get_parameter _ tt (one set_parameter tt),
)
  where
    one : (m : Method) → Spells v (ok m) → Spells v (check_method v m (to_extension v))
    one m h = check_method-Spells v m (to_extension v) h (to_extension-Spells v)

-- A decoded method is printed as bytes that decode to the same method.
pub try_from-as_str : (v : Bytes) (m : Method) → try_from v ≡ ok m → try_from (as_str m) ≡ ok m
try_from-as_str v (extension name) e =
    let spelled : (name ≡ map to_ascii_uppercase v) × (is_token v ≡ true) =
      rw e at (try_from-Spells v) in
    unfold as_str in ap try_from spelled.0 ∙ try_from-to_ascii_uppercase v ∙ e
try_from-as_str v describe e =
    unfold try_from to_extension check_method as_str bytes_eq to_ascii_uppercase in refl
try_from-as_str v _ e =
    unfold try_from to_extension check_method as_str bytes_eq to_ascii_uppercase in refl

-- A decoded method is printed as a token.
pub is_token-as_str : (v : Bytes) (m : Method) → try_from v ≡ ok m → is_token (as_str m) ≡ true
is_token-as_str v (extension name) e =
    let spelled : (name ≡ map to_ascii_uppercase v) × (is_token v ≡ true) =
      rw e at (try_from-Spells v) in
    unfold as_str in ap is_token spelled.0 ∙ is_token-to_ascii_uppercase v ∙ spelled.1
is_token-as_str v describe e = unfold as_str is_token is_token_char in refl
is_token-as_str v _ e = unfold as_str is_token is_token_char in refl

-- A method of the protocol's extensions, in lower case.
pub try_from_foo : try_from (bytes "foo") ≡ ok (extension (bytes "FOO"))
unfolding try_from to_extension check_method bytes_eq to_ascii_uppercase is_token is_token_char
try_from_foo = refl

pub try_from-setup : try_from (as_str setup) ≡ ok setup
unfolding try_from check_method as_str to_extension bytes_eq to_ascii_uppercase
try_from-setup = refl
