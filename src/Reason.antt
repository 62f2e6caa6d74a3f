-- ===== src/Reason.antt =====
-- rtsp-2/src/reason.rs: reason phrases. A reason phrase is kept as the UTF-8 bytes of its string.
use rtsp_rs.Prelude.{
  ◌&&◌, ◌||◌, not, List, [], ◌∷◌, ◌==◌, ltb, if◌then◌else◌, ℕ, Bool, Bytes, none, some, Result, ok,
  err, all,
}
use rtsp_rs.Header.Value.{utf8_chars, start}

pub data ReasonPhraseError : Type 0 where
  empty invalid_ascii invalid_utf8 : ReasonPhraseError

-- Not the characters that the loop refuses: `is_ascii` and not printable, but for the tab.
unfoldable pub is_reason_char : ℕ → Bool
is_reason_char c = not (ltb c 128 && (ltb c b' ' || ltb b'~' c) && not (c == b'\t'))

check_reason : Bytes → List ℕ → Result Bytes ReasonPhraseError
check_reason value [] = err empty
check_reason value (c ∷ cs) = if all is_reason_char (c ∷ cs) then ok value else err invalid_ascii

-- `TryFrom<&[u8]>`, which is `from_utf8` and `TryFrom<&str>`.
unfoldable pub try_from : Bytes → Result Bytes ReasonPhraseError
unfolding check_reason is_reason_char utf8_chars
try_from value = elim (utf8_chars start value) [
  | none ↦ err invalid_utf8
  | some chars ↦ check_reason value chars
]
