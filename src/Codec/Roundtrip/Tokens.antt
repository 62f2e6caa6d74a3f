-- ===== src/Codec/Roundtrip/Tokens.antt =====
-- rtsp-2/src/protocol/codec: a token has none of the bytes that the decoders look for behind it.
use rtsp_rs.Prelude.{
  ℕ, ◌≡◌, refl, not, Bool, true, false, [], ◌∷◌, ◌++◌, ◌==◌, Bytes, bytes, all, arith, starts_with,
  ◌||◌,
}
use rtsp_rs.Syntax.{is_blank, is_token, is_token_char, all_token_chars}
use rtsp_rs.Syntax.Tokens.{is_token_char_lem}
use rtsp_rs.Codec.Roundtrip.Printed.{lacks, starts_nonblank}

-- The delimiters of the first line and of the headers.
abbrev is_delimiter : ℕ → Bool
is_delimiter c = is_blank c || c == b':' || c == b'\r' || c == b'/'

is_token_char-ne : (c : ℕ) → is_token_char c ≡ true → is_delimiter c ≡ false
is_token_char-ne c h = ground (arith, is_token_char_lem c)

module _ (p : ℕ → Bool) (refused : (c : ℕ) → p c ≡ false → is_delimiter c ≡ true) where
  all_token_chars-all : (cs : Bytes) → all_token_chars cs ≡ true → all p cs ≡ true
  unfolding all_token_chars
  all_token_chars-all [] h = refl
  all_token_chars-all (c ∷ cs) h =
      ground (arith, is_token_char-ne c, refused c, all_token_chars-all cs)

  is_token-all : (cs : Bytes) → is_token cs ≡ true → all p cs ≡ true
  unfolding is_token
  is_token-all [] h = refl
  is_token-all (c ∷ cs) h = all_token_chars-all (c ∷ cs) h

pub is_token-lacks_space : (cs : Bytes) → is_token cs ≡ true → lacks b' ' cs ≡ true
is_token-lacks_space = is_token-all _ (λ c h. ground arith)

pub is_token-lacks_colon : (cs : Bytes) → is_token cs ≡ true → lacks b':' cs ≡ true
is_token-lacks_colon = is_token-all _ (λ c h. ground arith)

pub is_token-lacks_slash : (cs : Bytes) → is_token cs ≡ true → lacks b'/' cs ≡ true
is_token-lacks_slash = is_token-all _ (λ c h. ground arith)

pub is_token-no_blank : (cs : Bytes) → is_token cs ≡ true → all (λ c. not (is_blank c)) cs ≡ true
is_token-no_blank = is_token-all _ (λ c h. ground arith)

-- A token in front is no line break.
pub is_token-starts_with :
    (cs rest : Bytes) → is_token cs ≡ true → starts_with (bytes "\r\n") (cs ++ rest) ≡ false
unfolding is_token starts_with all_token_chars
is_token-starts_with [] rest h = cc
is_token-starts_with (c ∷ cs) rest h = ground (arith, is_token_char-ne c)

pub is_token-starts_nonblank :
    (cs rest : Bytes) → is_token cs ≡ true → starts_nonblank (cs ++ rest) ≡ true
unfolding is_token all_token_chars
is_token-starts_nonblank [] rest h = cc
is_token-starts_nonblank (c ∷ cs) rest h = ground (arith, is_token_char-ne c)

-- A token that a space follows does not start as a text with a slash and without a space does.
prefix-false :
    (text cs rest : Bytes)
    → lacks b' ' text ≡ true
    → lacks b'/' text ≡ false
    → lacks b'/' cs ≡ true
    → starts_with text (cs ++ (b' ' ∷ rest)) ≡ false
unfolding starts_with
prefix-false [] cs rest no_space slash h = cc
prefix-false (t ∷ text) [] rest no_space slash h = ground arith
prefix-false (t ∷ text) (c ∷ cs) rest no_space slash h = ground (arith, prefix-false text cs rest)

pub is_token-starts_with_rtsp :
    (cs rest : Bytes)
    → is_token cs ≡ true
    → starts_with (bytes "RTSP/") (cs ++ (b' ' ∷ rest)) ≡ false
is_token-starts_with_rtsp cs rest token =
    prefix-false (bytes "RTSP/") cs rest refl refl (is_token-lacks_slash cs token)
