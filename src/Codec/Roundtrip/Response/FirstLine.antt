-- ===== src/Codec/Roundtrip/Response/FirstLine.antt =====
-- rtsp-2/src/protocol/codec: the turns of the response decoder on the first line that the encoder writes.
use rtsp_rs.Prelude.{
  ℕ, suc, ◌+◌, ◌≤◌, ◌≡◌, refl, ap, sym, ◌∙◌, true, false, [], ◌∷◌, ◌++◌, Bytes, bytes, length, ltb,
  Option, some, none, ok, arith,
}
use rtsp_rs.Header.Map.{HeaderMaps}
use rtsp_rs.Header.Numbers.{to_string}
use rtsp_rs.Reason
use rtsp_rs.Status
use rtsp_rs.Status.{StatusCode, to_code, okay, canonical_reason}
use rtsp_rs.Version
use rtsp_rs.Version.{rtsp2_0}
use rtsp_rs.Codec.Decoder.Loop.{again}
use rtsp_rs.Codec.Decoder.Steps.{settle}
use rtsp_rs.Codec.Decoder.Response.{
  Config, DecodeState, at_header, at_reason_phrase, at_status_code, at_version, Decoder,
  decode_version, decode_status_code, decode_reason_phrase,
}
use rtsp_rs.Codec.Decoder.Response.Turns.{turn, turn_in}
use rtsp_rs.Codec.Roundtrip.Printed.{lacks, take-length, drop-length, find_line_break-printed}
use rtsp_rs.Codec.Roundtrip.StatusLine.{written_code, try_from_bytes-to_string}

module _ {Map : Type 0} (config : Config) where
  -- The decoder in the middle of a response.
  abbrev pub stage : DecodeState → StatusCode → Option Bytes → Map → Option Bytes → ℕ → Decoder Map
  stage state code reason headers body content_length = record {
    builder = record {
      body = body;
      custom_reason_phrase = reason;
      headers = headers;
      status_code = code;
      version = rtsp2_0;
    };
    config = config;
    content_length = content_length;
    state = state;
  }

-- The decoder between two responses, as `with_config` makes it and as `decode` leaves it; it keeps the
-- length of the last body.
abbrev pub waiting : {Map : Type 0} → HeaderMaps Map → Config → ℕ → Decoder Map
waiting maps config before = stage config at_version okay none maps.empty none before

-- A decoder with a configuration, which may have decoded messages before, the last with that content
-- length.
module _ {Map : Type 0} (maps : HeaderMaps Map) (config : Config) (before : ℕ) where
  pub version_turn :
      (rest : Bytes)
      → turn maps (waiting maps config before) (Version.as_encoded rtsp2_0 ++ (b' ' ∷ rest))
        ≡ again (stage config at_status_code okay none maps.empty none before) rest
  unfolding turn turn_in decode_version settle Version.as_encoded Version.try_decode
  version_turn rest =
      let enough : ltb (length (Version.as_encoded rtsp2_0 ++ (b' ' ∷ rest))) 9 ≡ false =
        ground arith in
      rw (decode_version, enough) refl

  three_bytes_turn :
      (code : StatusCode) (a b c : ℕ) (rest : Bytes)
      → Status.try_from_bytes (a ∷ b ∷ c ∷ []) ≡ ok code
      → turn maps
          (stage config at_status_code okay none maps.empty none before)
          (a ∷ b ∷ c ∷ b' ' ∷ rest)
        ≡ again (stage config at_reason_phrase code none maps.empty none before) rest
  unfolding turn turn_in decode_status_code settle
  three_bytes_turn code a b c rest parses =
      let enough : ltb (length (a ∷ b ∷ c ∷ b' ' ∷ rest)) 4 ≡ false = ground arith in
      rw (decode_status_code, enough, parses) refl

  pub status_code_turn :
      (code : StatusCode) (rest : Bytes)
      → Status.try_from (to_code code) ≡ ok code
      → turn maps
          (stage config at_status_code okay none maps.empty none before)
          (to_string (to_code code) ++ (b' ' ∷ rest))
        ≡ again (stage config at_reason_phrase code none maps.empty none before) rest
  status_code_turn code rest parses =
      let written = written_code code parses in
      ap
        (λ l.
          turn maps (stage config at_status_code okay none maps.empty none before)
            (l ++ (b' ' ∷ rest)))
        written
      ∙ three_bytes_turn code _ _ _ rest
          (ap Status.try_from_bytes (sym written) ∙ try_from_bytes-to_string code parses)

  pub reason_phrase_turn :
      (code : StatusCode) (reason rest : Bytes)
      → Reason.try_from reason ≡ ok reason
      → lacks b'\r' reason ≡ true
      → length reason ≤ config.reason_phrase_max_length
      → turn maps
          (stage config at_reason_phrase code none maps.empty none before)
          (reason ++ (bytes "\r\n" ++ rest))
        ≡ again (stage config at_header code (some reason) maps.empty none before) rest
  unfolding turn turn_in decode_reason_phrase settle
  reason_phrase_turn code reason rest parses one_line le =
      let more : config.reason_phrase_max_length + 2 ≡ suc (config.reason_phrase_max_length + 1) =
        omega arith in
      let found =
        find_line_break-printed (config.reason_phrase_max_length + 1) reason rest one_line
          (omega arith) in
      rw
        (
          more,
          decode_reason_phrase,
          found,
          take-length reason (b'\r' ∷ b'\n' ∷ rest),
          parses,
          drop-length reason (b'\r' ∷ b'\n' ∷ rest) 2,
        )
        refl
