-- ===== src/Header/Map.antt =====
-- rtsp-2/src/header/map.rs. `HeaderMap` is `ListOrderedMultimap` of the crate `ordered_multimap`: an
-- interface here, with what that crate documents of the operations that the protocol calls.
use rtsp_rs.Prelude.{
  ℕ, ◌+◌, ◌≡◌, refl, List, [], ◌∷◌, ◌++◌, if◌then◌else◌, Option, none, Result, ok, err, length,
  length-append, arith,
}
use rtsp_rs.Header.Name.{HeaderName, name_eq}
use rtsp_rs.Header.Value.{HeaderValue}

pub record HeaderMaps (Map : Type 0) : Type 0 where
  pub empty : Map
  pub append : HeaderName → HeaderValue → Map → Map
  pub get_all : HeaderName → Map → List HeaderValue
  pub values_len : Map → ℕ
  pub iter : Map → List (HeaderName × HeaderValue)
  pub get_all-empty : (name : HeaderName) → get_all name empty ≡ []
  pub get_all-append :
      (name key : HeaderName) (value : HeaderValue) (map : Map)
      → get_all key (append name value map)
        ≡ (if name_eq name key then get_all key map ++ (value ∷ []) else get_all key map)
  pub iter-empty : iter empty ≡ []
  pub iter-append :
      (name : HeaderName) (value : HeaderValue) (map : Map)
      → iter (append name value map) ≡ iter map ++ ((name, value) ∷ [])
  pub values_len-empty : values_len empty ≡ 0
  pub values_len-append :
      (name : HeaderName) (value : HeaderValue) (map : Map)
      → values_len (append name value map) ≡ values_len map + 1

-- `typed_try_get` and `typed_get` for a typed header, given by its name and its decoder.
module _ {Map H E : Type 0} (maps : HeaderMaps Map) (name : HeaderName)
    (decode : List HeaderValue → Result (Option H) E) where
  abbrev pub typed_try_get : Map → Result (Option H) E
  typed_try_get map = decode (maps.get_all name map)

  abbrev pub typed_get : Map → Option H
  typed_get map = elim (typed_try_get map) [ ok header ↦ header | err e ↦ none ]

-- The interface can be met: pairs in the order of their insertion.
abbrev pub Pairs : Type 0
Pairs = List (HeaderName × HeaderValue)

unfoldable pub pairs_get_all : HeaderName → Pairs → List HeaderValue
pairs_get_all key [] = []
pairs_get_all key ((name, value) ∷ pairs) =
    let rest = pairs_get_all key pairs in if name_eq name key then value ∷ rest else rest

pub pairs_get_all-append :
    (name key : HeaderName) (value : HeaderValue) (pairs : Pairs)
    → pairs_get_all key (pairs ++ ((name, value) ∷ [])) ≡ (
        if name_eq name key
        then pairs_get_all key pairs ++ (value ∷ [])
        else pairs_get_all key pairs)
unfolding pairs_get_all
pairs_get_all-append name key value [] = ground arith
pairs_get_all-append name key value ((n, v) ∷ pairs) =
    ground (arith, pairs_get_all-append name key value pairs)

pub pairs_len-append :
    (p : HeaderName × HeaderValue) (pairs : Pairs) → length (pairs ++ p ∷ []) ≡ length pairs + 1
pairs_len-append p pairs = omega (arith, length-append pairs (p ∷ []))

unfoldable pub pair_maps : HeaderMaps Pairs
unfolding pairs_get_all
pair_maps = record {
  empty = [];
  append = λ name value pairs. pairs ++ ((name, value) ∷ []);
  get_all = pairs_get_all;
  values_len = length;
  iter = λ pairs. pairs;
  iter-empty = refl;
  iter-append = λ name value pairs. refl;
  get_all-empty = λ name. refl;
  get_all-append = pairs_get_all-append;
  values_len-empty = refl;
  values_len-append = λ name value pairs. pairs_len-append (name, value) pairs;
}
