-- ===== src/Codec/Roundtrip/Request/FirstLine.antt =====
-- rtsp-2/src/protocol/codec: the turns of the request decoder on the first line that the encoder writes.
use rtsp_rs.Prelude.{
  ℕ, suc, ◌+◌, ◌≤◌, ◌≡◌, refl, true, false, ◌∷◌, ◌++◌, Bytes, bytes, length, ltb, Option, some,
  none, ok, Result, arith,
}
use rtsp_rs.Header.Map.{HeaderMaps}
use rtsp_rs.Method
use rtsp_rs.Method.{Method}
use rtsp_rs.Method.Cases.{is_token-as_str}
use rtsp_rs.Version
use rtsp_rs.Version.{rtsp2_0}
use rtsp_rs.Codec.Decoder.Loop.{again}
use rtsp_rs.Codec.Decoder.Request.{
  DecodeError, DecodeState, at_header, at_method, at_uri, at_version, Decoder, decode_method,
  decode_uri, decode_version,
}
use rtsp_rs.Codec.Decoder.Request.Limits.{Config}
use rtsp_rs.Codec.Decoder.Request.Turns.{turn, turn_in, settle}
use rtsp_rs.Codec.Roundtrip.Printed.{lacks, take-length, drop-length, find_byte-printed}
use rtsp_rs.Codec.Roundtrip.Tokens.{is_token-lacks_space}

module _ {Map Uri UriError : Type 0} (config : Config) where
  -- The decoder in the middle of a request.
  abbrev pub stage :
      DecodeState (DecodeError UriError)
      → Option Method
      → Option Uri
      → Map
      → Option Bytes
      → ℕ
      → Decoder Map Uri UriError
  stage state method uri headers body content_length = record {
    builder = record {
      body = body;
      headers = headers;
      method = method;
      uri = uri;
      version = rtsp2_0;
    };
    config = config;
    content_length = content_length;
    state = state;
  }

-- The decoder between two requests, as `with_config` makes it and as `decode` leaves it; it keeps the
-- length of the last body.
abbrev pub waiting :
    {Map Uri UriError : Type 0} → HeaderMaps Map → Config → ℕ → Decoder Map Uri UriError
waiting maps config before = stage config at_method none none maps.empty none before

-- A decoder with a configuration, which may have decoded messages before, the last with that content
-- length.
module _ {Map Uri UriError : Type 0} (maps : HeaderMaps Map)
    (uri_try_from : Bytes → Result Uri UriError) (config : Config) (before : ℕ) where
  pub method_turn :
      (m : Method) (rest : Bytes)
      → Method.try_from (Method.as_str m) ≡ ok m
      → length (Method.as_str m) ≤ config.method_max_length
      → turn maps uri_try_from
          (stage config at_method none none maps.empty none before)
          (Method.as_str m ++ (b' ' ∷ rest))
        ≡ again (stage config at_uri (some m) none maps.empty none before) rest
  unfolding turn turn_in decode_method settle
  method_turn m rest parses le =
      let more : config.method_max_length + 1 ≡ suc config.method_max_length = omega arith in
      let found =
        find_byte-printed b' ' config.method_max_length (Method.as_str m) rest
          (is_token-lacks_space _ (is_token-as_str _ m parses)) le in
      rw
        (
          more,
          decode_method,
          found,
          take-length (Method.as_str m) (b' ' ∷ rest),
          parses,
          drop-length (Method.as_str m) (b' ' ∷ rest) 1,
        )
        refl

  pub uri_turn :
      (m : Method) (u : Uri) (text rest : Bytes)
      → uri_try_from text ≡ ok u
      → lacks b' ' text ≡ true
      → length text ≤ config.uri_max_length
      → turn maps uri_try_from
          (stage config at_uri (some m) none maps.empty none before)
          (text ++ (b' ' ∷ rest))
        ≡ again (stage config at_version (some m) (some u) maps.empty none before) rest
  unfolding turn turn_in decode_uri settle
  uri_turn m u text rest parses no_space le =
      let more : config.uri_max_length + 1 ≡ suc config.uri_max_length = omega arith in
      let found = find_byte-printed b' ' config.uri_max_length text rest no_space le in
      rw
        (
          more,
          decode_uri,
          found,
          take-length text (b' ' ∷ rest),
          parses,
          drop-length text (b' ' ∷ rest) 1,
        )
        refl

  pub version_turn :
      (m : Method) (u : Uri) (rest : Bytes)
      → turn maps uri_try_from
          (stage config at_version (some m) (some u) maps.empty none before)
          (Version.as_encoded rtsp2_0 ++ (bytes "\r\n" ++ rest))
        ≡ again (stage config at_header (some m) (some u) maps.empty none before) rest
  unfolding turn turn_in decode_version settle Version.as_encoded Version.try_decode
  version_turn m u rest =
      let enough : ltb (length (Version.as_encoded rtsp2_0 ++ (bytes "\r\n" ++ rest))) 10 ≡ false =
        ground arith in
      rw (decode_version, enough) refl
