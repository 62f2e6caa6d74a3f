-- ===== src/Codec/Decoder/Request/Safety.antt =====
-- rtsp-2/src/protocol/codec/decoder/request.rs: the invariant of the request decoder. The builder has
-- the parts that its state promises, so that the `expect` behind `build` cannot fail, and the limits
-- of the configuration hold.
use rtsp_rs.Prelude.{
  ℕ, ◌+◌, ◌≤◌, ◌<◌, ◌≡◌, refl, Bytes, length, drop, length-take, Option, none, some, Result, arith,
  Bool, true, false,
}
use rtsp_rs.Header.Map.{HeaderMaps}
use rtsp_rs.Request.{Request, build, new_builder}
use rtsp_rs.Version.{rtsp2_0}
use rtsp_rs.Codec.Decoder.{DecodeResult, complete, error, incomplete}
use rtsp_rs.Codec.Decoder.Loop.Total
use rtsp_rs.Codec.Decoder.Request.Limits.{Config}
use rtsp_rs.Codec.Decoder.Request.{
  DecodeError, DecodeState, at_body, at_end, at_error, at_header, at_method, at_uri, at_version,
  Decoder, Part, decode_body, decode_header_name, decode_header_value, append_header,
  decode_header_line, end_of_headers, decode_header, decode_method, decode_uri, decode_version,
}
use rtsp_rs.Codec.Decoder.Request.Turns.{TurnOf, settle, finish, turn_in, turn}

abbrev pub is_some : {A : Type 0} → Option A → Bool
is_some none = false
is_some (some a) = true

-- A body that is there, and not longer than `max`.
abbrev pub Body : ℕ → Option Bytes → Type 0
Body max none = ⊥
Body max (some body) = length body ≤ max

module _ {Map Uri UriError : Type 0} where
  -- What a decoder knows of its builder and its content length, by its state.
  abbrev pub Filled : DecodeState (DecodeError UriError) → Decoder Map Uri UriError → Type 0
  Filled at_method d = Unit {0}
  Filled (at_error e) d = Unit {0}
  Filled at_uri d = is_some d.builder.method ≡ true
  Filled at_version d = (is_some d.builder.method ≡ true) × (is_some d.builder.uri ≡ true)
  Filled at_header d = (is_some d.builder.method ≡ true) × (is_some d.builder.uri ≡ true)
  Filled at_body d =
      (is_some d.builder.method ≡ true)
      × (is_some d.builder.uri ≡ true)
      × (d.content_length ≤ d.config.body_max_length)
  Filled at_end d =
      (is_some d.builder.method ≡ true)
      × (is_some d.builder.uri ≡ true)
      × Body d.config.body_max_length d.builder.body

module _ {Map Uri : Type 0} (maps : HeaderMaps Map) where
  -- A request within the limits of the configuration.
  pub record IsAllowed (config : Config) (request : Request Bytes Map Uri) : Type 0 where
    pub version_is : request.version ≡ rtsp2_0
    pub headers_le : maps.values_len request.headers ≤ config.header_max_count
    pub body_le : length request.body ≤ config.body_max_length

module _ {Map Uri UriError : Type 0} (maps : HeaderMaps Map) where
  pub record IsSound (config : Config) (d : Decoder Map Uri UriError) : Type 0 where
    pub same_config : d.config ≡ config
    pub version_is : d.builder.version ≡ rtsp2_0
    pub headers_le : maps.values_len d.builder.headers ≤ config.header_max_count
    pub filled : Filled d.state d

  -- A part that does not fail leaves the decoder sound; one that fails leaves all but the state sound.
  abbrev SoundPart : Config → Part Map Uri UriError → Type 0
  SoundPart config (complete _, d, rest) = IsSound config d
  SoundPart config (incomplete, d, rest) = IsSound config d
  SoundPart config (error e, d, rest) = IsSound config (record d { state = at_error e })

  module _ (config : Config) (d : Decoder Map Uri UriError) (buffer : Bytes)
      (sound : IsSound config d) where
    decode_method-SoundPart : d.state ≡ at_method → SoundPart config (decode_method d buffer)
    unfolding decode_method
    decode_method-SoundPart e = ground arith

    decode_uri-SoundPart :
        (uri_try_from : Bytes → Result Uri UriError)
        → d.state ≡ at_uri
        → SoundPart config (decode_uri uri_try_from d buffer)
    unfolding decode_uri
    decode_uri-SoundPart uri_try_from e = ground arith

    decode_version-SoundPart : d.state ≡ at_version → SoundPart config (decode_version d buffer)
    unfolding decode_version
    decode_version-SoundPart e = ground arith

    decode_body-SoundPart : d.state ≡ at_body → SoundPart config (decode_body d buffer)
    unfolding decode_body
    decode_body-SoundPart e = ground (arith, length-take d.content_length buffer)

    append_header-SoundPart :
        (name value rest : Bytes)
        → d.state ≡ at_header
        → maps.values_len d.builder.headers < config.header_max_count
        → SoundPart config (append_header maps name value rest d buffer)
    unfolding append_header
    append_header-SoundPart name value rest e h = grind (arith, maps.values_len-append)

    decode_header_line-SoundPart :
        (name : Bytes)
        → d.state ≡ at_header
        → SoundPart config (decode_header_line maps name d buffer)
    decode_header_line-SoundPart name e =
        line (decode_header_value d.config (drop (length name + 1) buffer)) refl
      where
        line :
            (r : DecodeResult Bytes (DecodeError UriError))
            → decode_header_value d.config (drop (length name + 1) buffer) ≡ r
            → SoundPart config (decode_header_line maps name d buffer)
        line (complete value) h =
            unfold decode_header_line in
            ground (arith, append_header-SoundPart name value (drop (length name + 1) buffer) e)
        line (error e') h = unfold decode_header_line in ground arith
        line incomplete h = unfold decode_header_line in ground arith

    end_of_headers-SoundPart : d.state ≡ at_header → SoundPart config (end_of_headers maps d buffer)
    unfolding end_of_headers
    end_of_headers-SoundPart e = ground arith

    decode_header-SoundPart : d.state ≡ at_header → SoundPart config (decode_header maps d buffer)
    decode_header-SoundPart e = header (decode_header_name d.config buffer) refl
      where
        header :
            (r : DecodeResult (Option Bytes) (DecodeError UriError))
            → decode_header_name d.config buffer ≡ r
            → SoundPart config (decode_header maps d buffer)
        header (complete none) h =
            unfold decode_header in rw (h, decode_header) (end_of_headers-SoundPart e)
        header (complete (some name)) h =
            unfold decode_header in rw (h, decode_header) (decode_header_line-SoundPart name e)
        header (error e') h = unfold decode_header in ground arith
        header incomplete h = unfold decode_header in ground arith

  abbrev pub Failed : DecodeError UriError → Decoder Map Uri UriError → Type 0
  Failed e d = d.state ≡ at_error e

  abbrev pub SoundTurn : Config → TurnOf Map Uri UriError → Type 0
  SoundTurn config = Total.SoundTurn (IsSound config) (IsAllowed maps config) Failed

  settle-Sound :
      (config : Config) (p : Part Map Uri UriError)
      → SoundPart config p
      → SoundTurn config (settle p)
  unfolding settle
  settle-Sound config (complete _, d, rest) h = h
  settle-Sound config (incomplete, d, rest) h = h
  settle-Sound config (error e, d, rest) h = (h, refl)

  finish-Sound :
      (config : Config) (d : Decoder Map Uri UriError) (buffer : Bytes)
      → IsSound config d
      → d.state ≡ at_end
      → SoundTurn config (finish maps d buffer)
  unfolding finish build new_builder
  finish-Sound config d buffer h e = ground (arith, maps.values_len-empty)

  turn_in-Sound :
      (uri_try_from : Bytes → Result Uri UriError) (config : Config)
      (state : DecodeState (DecodeError UriError)) (d : Decoder Map Uri UriError) (buffer : Bytes)
      → d.state ≡ state
      → IsSound config d
      → SoundTurn config (turn_in maps uri_try_from state d buffer)
  unfolding turn_in
  turn_in-Sound u c at_header d b e h = settle-Sound c _ (decode_header-SoundPart c d b h e)
  turn_in-Sound u c at_method d b e h = settle-Sound c _ (decode_method-SoundPart c d b h e)
  turn_in-Sound u c at_uri d b e h = settle-Sound c _ (decode_uri-SoundPart c d b h u e)
  turn_in-Sound u c at_version d b e h = settle-Sound c _ (decode_version-SoundPart c d b h e)
  turn_in-Sound u c at_body d b e h = settle-Sound c _ (decode_body-SoundPart c d b h e)
  turn_in-Sound u c at_end d b e h = finish-Sound c d b h e
  turn_in-Sound u c (at_error _) d b e h = (h, e)

  pub turn-Sound :
      (uri_try_from : Bytes → Result Uri UriError) (config : Config) (d : Decoder Map Uri UriError)
      (buffer : Bytes)
      → IsSound config d
      → SoundTurn config (turn maps uri_try_from d buffer)
  unfolding turn
  turn-Sound u c d b h = turn_in-Sound u c d.state d b refl h
