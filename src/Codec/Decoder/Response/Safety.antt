-- ===== src/Codec/Decoder/Response/Safety.antt =====
-- rtsp-2/src/protocol/codec/decoder/response.rs: the invariant of the response decoder. The builder
-- has the parts that its state promises, so that no `expect` fails, and the limits of the
-- configuration hold.
use rtsp_rs.Prelude.{
  ◌+◌, ◌≤◌, ◌<◌, ◌≡◌, refl, Bytes, length, drop, length-take, Option, none, some, arith, true,
  false, Bool-cases, Option-cases, inl, inr,
}
use rtsp_rs.Header.Map.{HeaderMaps}
use rtsp_rs.Response.{Response, Builder, build, build_with, is_extension, new_builder}
use rtsp_rs.Status.{StatusCode, extension, canonical_reason}
use rtsp_rs.Version.{rtsp2_0}
use rtsp_rs.Codec.Decoder.{DecodeResult, complete, error, incomplete}
use rtsp_rs.Codec.Decoder.Loop.Total
use rtsp_rs.Codec.Decoder.Request.Safety.{is_some, Body}
use rtsp_rs.Codec.Decoder.Steps.{settle}
use rtsp_rs.Codec.Decoder.Response.{
  Config, DecodeError, DecodeState, at_body, at_end, at_error, at_header, at_reason_phrase,
  at_status_code, at_version, Decoder, Part, decode_body, decode_reason_phrase, decode_status_code,
  decode_version, decode_header_name, decode_header_value, append_header, decode_header_line,
  end_of_headers, decode_header,
}
use rtsp_rs.Codec.Decoder.Response.Turns.{
  fail, TurnOf, finish_built, turn_in, turn, with_config, reset,
}

module _ {Map : Type 0} where
  -- What a decoder knows of its builder and its content length, by its state.
  abbrev Filled : DecodeState → Decoder Map → Type 0
  Filled at_header d = is_some d.builder.custom_reason_phrase ≡ true
  Filled at_body d =
      (is_some d.builder.custom_reason_phrase ≡ true)
      × (d.content_length ≤ d.config.body_max_length)
  Filled at_end d =
      (is_some d.builder.custom_reason_phrase ≡ true) × Body d.config.body_max_length d.builder.body
  Filled at_version d = Unit {0}
  Filled at_status_code d = Unit {0}
  Filled at_reason_phrase d = Unit {0}
  Filled (at_error _) d = Unit {0}

  abbrev pub Failed : DecodeError → Decoder Map → Type 0
  Failed e d = d.state ≡ at_error e

module _ {Map : Type 0} (b : Builder Bytes Map) (reason : Bytes) where
  build_custom :
      is_extension b.status_code ≡ true
      → b.custom_reason_phrase ≡ some reason
      → build b ≡ build_with b reason
  unfolding build
  build_custom custom there = ground arith

  build_standard :
      is_extension b.status_code ≡ false
      → canonical_reason b.status_code ≡ some reason
      → build b ≡ build_with b reason
  unfolding build
  build_standard standard there = ground arith

module _ {Map : Type 0} (maps : HeaderMaps Map) where
  -- A response within the limits of the configuration.
  pub record IsAllowed (config : Config) (response : Response Bytes Map) : Type 0 where
    pub version_is : response.version ≡ rtsp2_0
    pub headers_le : maps.values_len response.headers ≤ config.header_max_count
    pub body_le : length response.body ≤ config.body_max_length
    pub reason_is :
        is_extension response.status_code ≡ false
        → canonical_reason response.status_code ≡ some response.reason_phrase

  pub record IsSound (config : Config) (d : Decoder Map) : Type 0 where
    pub same_config : d.config ≡ config
    pub version_is : d.builder.version ≡ rtsp2_0
    pub headers_le : maps.values_len d.builder.headers ≤ config.header_max_count
    pub filled : Filled d.state d

  -- A method that does not fail leaves the decoder sound; one that fails leaves all but the state
  -- sound.
  abbrev SoundPart : Config → Part Map → Type 0
  SoundPart config (complete _, d, rest) = IsSound config d
  SoundPart config (incomplete, d, rest) = IsSound config d
  SoundPart config (error e, d, rest) = IsSound config (record d { state = at_error e })

  module _ (config : Config) (d : Decoder Map) (buffer : Bytes) (sound : IsSound config d) where
    decode_version-SoundPart : d.state ≡ at_version → SoundPart config (decode_version d buffer)
    unfolding decode_version
    decode_version-SoundPart e = ground arith

    decode_status_code-SoundPart :
        d.state ≡ at_status_code → SoundPart config (decode_status_code d buffer)
    unfolding decode_status_code
    decode_status_code-SoundPart e = ground arith

    decode_reason_phrase-SoundPart :
        d.state ≡ at_reason_phrase → SoundPart config (decode_reason_phrase d buffer)
    unfolding decode_reason_phrase
    decode_reason_phrase-SoundPart e = ground arith

    decode_body-SoundPart : d.state ≡ at_body → SoundPart config (decode_body d buffer)
    unfolding decode_body
    decode_body-SoundPart e = ground (arith, length-take d.content_length buffer)

    append_header-SoundPart :
        (name value rest : Bytes)
        → d.state ≡ at_header
        → maps.values_len d.builder.headers < config.header_max_count
        → SoundPart config (append_header maps name value rest d buffer)
    unfolding append_header
    append_header-SoundPart name value rest e h = grind (arith, maps.values_len-append)

    line_value :
        (name : Bytes) (r : DecodeResult Bytes DecodeError)
        → d.state ≡ at_header
        → decode_header_value d.config (drop (length name + 1) buffer) ≡ r
        → SoundPart config (decode_header_line maps name d buffer)
    unfolding decode_header_line
    line_value name (complete value) e h =
        ground (arith, append_header-SoundPart name value (drop (length name + 1) buffer) e)
    line_value name (error e') e h = ground arith
    line_value name incomplete e h = ground arith

    end_of_headers-SoundPart : d.state ≡ at_header → SoundPart config (end_of_headers maps d buffer)
    unfolding end_of_headers
    end_of_headers-SoundPart e = ground arith

    header_name_found :
        (r : DecodeResult (Option Bytes) DecodeError)
        → d.state ≡ at_header
        → decode_header_name d.config buffer ≡ r
        → SoundPart config (decode_header maps d buffer)
    unfolding decode_header
    header_name_found (complete none) e h = rw (h, decode_header) (end_of_headers-SoundPart e)
    header_name_found (complete (some name)) e h = rw (h, decode_header) (line_value name _ e refl)
    header_name_found (error e') e h = ground arith
    header_name_found incomplete e h = ground arith

  abbrev SoundTurn : Config → TurnOf Map → Type 0
  SoundTurn config = Total.SoundTurn (IsSound config) (IsAllowed config) Failed

  settle-Sound :
      (config : Config) (p : Part Map) → SoundPart config p → SoundTurn config (settle fail p)
  unfolding settle
  settle-Sound config (complete _, d, rest) h = h
  settle-Sound config (incomplete, d, rest) h = h
  settle-Sound config (error e, d, rest) h = (h, refl)

  -- The `expect` of `build` does not fail.
  canonical_reason-is_some :
      (status : StatusCode) → is_extension status ≡ false → is_some (canonical_reason status) ≡ true
  unfolding canonical_reason
  canonical_reason-is_some (extension _) h = cc
  canonical_reason-is_some _ h = refl

  build_with-Sound :
      (config : Config) (d : Decoder Map) (buffer reason : Bytes)
      → IsSound config d
      → d.state ≡ at_end
      → (is_extension d.builder.status_code ≡ false
          → canonical_reason d.builder.status_code ≡ some reason)
      → SoundTurn config (finish_built maps (build_with d.builder reason) d buffer)
  unfolding build_with finish_built new_builder
  build_with-Sound config d buffer reason h e r = ground (arith, maps.values_len-empty)

  finish-Sound :
      (config : Config) (d : Decoder Map) (buffer : Bytes)
      → IsSound config d
      → d.state ≡ at_end
      → SoundTurn config (finish_built maps (build d.builder) d buffer)
  finish-Sound config d buffer h e = elim (Bool-cases (is_extension d.builder.status_code)) [
    | inl custom ↦ elim (Option-cases d.builder.custom_reason_phrase) [
      | inl missing ↦ absurd (ground arith)
      | inr (reason, there) ↦
          rw (build_custom d.builder reason custom there)
            (build_with-Sound config d buffer reason h e (λ f. cc))
    ]
    | inr standard ↦ elim (Option-cases (canonical_reason d.builder.status_code)) [
      | inl missing ↦
          let there = canonical_reason-is_some d.builder.status_code standard in
          absurd (ground arith)
      | inr (reason, there) ↦
          rw (build_standard d.builder reason standard there)
            (build_with-Sound config d buffer reason h e (λ f. there))
    ]
  ]

  turn_in-Sound :
      (config : Config) (state : DecodeState) (d : Decoder Map) (buffer : Bytes)
      → d.state ≡ state
      → IsSound config d
      → SoundTurn config (turn_in maps state d buffer)
  unfolding turn_in
  turn_in-Sound c at_header d b e h =
      settle-Sound c _ (unfold decode_header in header_name_found c d b h _ e refl)
  turn_in-Sound c at_version d b e h = settle-Sound c _ (decode_version-SoundPart c d b h e)
  turn_in-Sound c at_status_code d b e h = settle-Sound c _ (decode_status_code-SoundPart c d b h e)
  turn_in-Sound c at_reason_phrase d b e h =
      settle-Sound c _ (decode_reason_phrase-SoundPart c d b h e)
  turn_in-Sound c at_body d b e h = settle-Sound c _ (decode_body-SoundPart c d b h e)
  turn_in-Sound c at_end d b e h = finish-Sound c d b h e
  turn_in-Sound c (at_error _) d b e h = (h, e)

  pub turn-Sound :
      (config : Config) (d : Decoder Map) (buffer : Bytes)
      → IsSound config d
      → SoundTurn config (turn maps d buffer)
  unfolding turn
  turn-Sound c d b h = turn_in-Sound c d.state d b refl h

  pub with_config-IsSound : (config : Config) → IsSound config (with_config maps config)
  unfolding with_config new_builder
  with_config-IsSound config = ground (arith, maps.values_len-empty)

  pub reset-IsSound : (d : Decoder Map) → IsSound d.config (reset maps d)
  unfolding reset new_builder
  reset-IsSound d = ground (arith, maps.values_len-empty)
