-- ===== src/Header/Session/Printed.antt =====
-- rtsp-2/src/header/types/session.rs: what `encode` writes is decoded again.
use rtsp_rs.Prelude.{
  sym, ==_iff, ℕ, ◌≡◌, ◌≤◌, refl, ap, ◌∙◌, true, false, [], ◌∷◌, ◌++◌, ◌==◌, ltb, if◌then◌else◌,
  Bytes, bytes, Option, none, some, Result, ok, err, all, arith, Bool-cases, inl, inr, bytes_eq,
  to_ascii_lowercase,
}
use rtsp_rs.Header.Numbers.{parse, to_string, parse-to_string}
use rtsp_rs.Header.Session.{
  Duration, SessionHeader, SessionError, timeout_error, exceeds_maximum_length, split_two,
  decode_delta, decode_parameter, decode_parts, decode, encode_text, encode,
}
use rtsp_rs.Session
use rtsp_rs.Session.{is_session_char, try_from-all, default_session_timeout, max_session_timeout}
use rtsp_rs.Codec.Roundtrip.Digits.{is_digit, to_string-all}
use rtsp_rs.Syntax.Whitespace.{
  trim_whitespace_left, trim_whitespace_right, trim_loop, strip_start, strip_end,
  trim_start_line_breaks, trim_start_blanks, trim_end_line_breaks, trim_end_blanks, is_visible,
  trim_whitespace, trim_whitespace-visible, trim_whitespace-blank,
}

split_two-none : (cs : Bytes) → all is_session_char cs ≡ true → split_two b';' cs ≡ (cs, none)
unfolding split_two is_session_char
split_two-none [] h = refl
split_two-none (c ∷ cs) h = ground (arith, split_two-none cs)

split_two-at :
    (cs rest : Bytes)
    → all is_session_char cs ≡ true
    → split_two b';' (cs ++ (b';' ∷ rest)) ≡ (cs, some rest)
unfolding split_two is_session_char
split_two-at [] rest h = refl
split_two-at (c ∷ cs) rest h = ground (arith, split_two-at cs rest)

session_char-ne :
    (c d : ℕ) → is_session_char d ≡ false → is_session_char c ≡ true → (c == d) ≡ false
session_char-ne c d refused own = elim (Bool-cases (c == d)) [
  | inr other ↦ other
  | inl same ↦
      let e : c ≡ d = (==_iff c d).0 same in
      let clash : true ≡ false = sym own ∙ ap is_session_char e ∙ refused in cc
]

session_char-visible : (c : ℕ) → is_session_char c ≡ true → is_visible c ≡ true
unfolding is_session_char
session_char-visible c h =
    let space = session_char-ne c b' ' refl h in
    let tab = session_char-ne c b'\t' refl h in
    let carriage_return = session_char-ne c b'\r' refl h in
    let line_feed = session_char-ne c b'\n' refl h in
    rw (space, tab, carriage_return, line_feed) refl

session_chars-visible : (cs : Bytes) → all is_session_char cs ≡ true → all is_visible cs ≡ true
session_chars-visible [] h = refl
session_chars-visible (c ∷ cs) h = elim (Bool-cases (is_session_char c)) [
  | inl own ↦ rw (session_char-visible c own) (session_chars-visible cs (rw own at h))
  | inr other ↦ let clash : false ≡ true = rw other at h in cc
]

digits-visible : (cs : Bytes) → all is_digit cs ≡ true → all is_visible cs ≡ true
digits-visible [] h = refl
digits-visible (c ∷ cs) h = ground (arith, digits-visible cs)

-- What is read back of a header: no timeout for that of 60 seconds, which is not written; whole
-- seconds; and no header for more seconds than a timeout may have.
abbrev pub read_back : SessionHeader → Result (Option SessionHeader) SessionError
read_back session = elim session.timeout [
  | none ↦ ok (some (record { id = session.id; timeout = none }))
  | some timeout ↦
      if timeout.secs == default_session_timeout
      then ok (some (record { id = session.id; timeout = none }))
      else if ltb max_session_timeout timeout.secs
      then err (timeout_error exceeds_maximum_length)
      else ok (
          some (record {
            id = session.id;
            timeout = some (record { secs = timeout.secs; nanos = 0 });
          }))
]

name_read : trim_whitespace (bytes " timeout ") ≡ bytes "timeout"
unfolding trim_whitespace trim_whitespace_left trim_whitespace_right trim_loop strip_start strip_end
    trim_start_line_breaks trim_start_blanks trim_end_line_breaks trim_end_blanks
name_read = refl

module _ (id : Bytes) (parses : Session.try_from id ≡ ok id) where
  id_chars : all is_session_char id ≡ true
  id_chars = (try_from-all id id parses).1

  id_read : Session.try_from (trim_whitespace id) ≡ ok id
  id_read =
      ap Session.try_from (trim_whitespace-visible id (session_chars-visible id id_chars)) ∙ parses

  decode_id : decode (record { text = id } ∷ []) ≡ ok (some (record { id = id; timeout = none }))
  unfolding decode
  decode_id = ap decode_parts (split_two-none id id_chars) ∙ (rw (id_read, decode_parts) refl)

  decode_timeout :
      (secs : ℕ)
      → secs ≤ 0xffff_ffff_ffff_ffff
      → decode (record { text = id ++ (bytes "; timeout = " ++ to_string secs) } ∷ [])
        ≡ decode_delta id (ok secs)
  unfolding decode bytes_eq to_ascii_lowercase
  decode_timeout secs le =
      let digits = to_string secs in
      let delta : parse 0xffff_ffff_ffff_ffff (trim_whitespace (b' ' ∷ digits)) ≡ ok secs =
        ap (parse 0xffff_ffff_ffff_ffff)
          (trim_whitespace-blank b' ' digits refl (digits-visible digits (to_string-all secs)))
        ∙ parse-to_string 0xffff_ffff_ffff_ffff secs le (omega arith) in
      let pieces : split_two b'=' (bytes " timeout = " ++ digits)
          ≡ (bytes " timeout ", some (b' ' ∷ digits)) =
        unfold split_two in refl in
      ap decode_parts (split_two-at id (bytes " timeout = " ++ digits) id_chars)
      ∙ (rw (id_read, decode_parts)
          (ap (decode_parameter id) pieces ∙ (rw (name_read, delta, decode_parameter) refl)))

  read_encoded :
      (timeout : Option Duration)
      → ((t : Duration) → timeout ≡ some t → t.secs ≤ 0xffff_ffff_ffff_ffff)
      → decode (encode (record { id = id; timeout = timeout }))
        ≡ read_back (record { id = id; timeout = timeout })
  unfolding encode encode_text
  read_encoded none le = decode_id
  read_encoded (some t) le = elim (Bool-cases (t.secs == default_session_timeout)) [
    | inl standard ↦ rw standard decode_id
    | inr other ↦ rw other (unfold decode_delta in decode_timeout t.secs (le t refl))
  ]

-- A header with a session identifier that can be parsed, and a timeout that fits into 64 bits if it
-- has one, is decoded from what is encoded for it as it was, but for the timeout: that of 60 seconds,
-- which is not written, is read as none, of any other the whole seconds are read, and more than
-- 9,999,999,999,999,999,999 of them are refused, although they are encoded.
pub decode-encode_session :
    (session : SessionHeader)
    → Session.try_from session.id ≡ ok session.id
    → ((t : Duration) → session.timeout ≡ some t → t.secs ≤ 0xffff_ffff_ffff_ffff)
    → decode (encode session) ≡ read_back session
decode-encode_session session parses le = read_encoded session.id parses session.timeout le
