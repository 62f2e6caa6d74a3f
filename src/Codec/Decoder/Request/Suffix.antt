-- ===== src/Codec/Decoder/Request/Suffix.antt =====
-- rtsp-2/src/protocol/codec/decoder/request.rs: what a part of the decoder leaves of the buffer is
-- the buffer without its first bytes.
use rtsp_rs.Prelude.{
  ◌+◌, ◌≡◌, refl, Bytes, length, drop, Option, none, some, Result, arith, IsSuffix, IsSuffix-refl,
  IsSuffix-drop, IsSuffix-trans,
}
use rtsp_rs.Header.Map.{HeaderMaps}
use rtsp_rs.Codec.Decoder.{DecodeResult, complete, error, incomplete}
use rtsp_rs.Codec.Decoder.Loop.Chunks.{SuffixTurn}
use rtsp_rs.Codec.Decoder.Request.{
  DecodeError, DecodeState, at_body, at_end, at_error, at_header, at_method, at_uri, at_version,
  Decoder, Part, decode_body, decode_header_name, decode_header_value, append_header,
  decode_header_line, end_of_headers, decode_header, decode_method, decode_uri, decode_version,
}
use rtsp_rs.Codec.Decoder.Request.Turns.{settle, finish, turn_in, turn}

abbrev pub SuffixPart : {Map Uri UriError : Type 0} → Bytes → Part Map Uri UriError → Type 0
SuffixPart buffer (_, _, rest) = IsSuffix rest buffer

module _ {Map Uri UriError : Type 0} (d : Decoder Map Uri UriError) (buffer : Bytes) where
  decode_body-Suffix : SuffixPart buffer (decode_body d buffer)
  unfolding decode_body
  decode_body-Suffix = ground (arith, IsSuffix-refl buffer, IsSuffix-drop d.content_length buffer)

  decode_version-Suffix : SuffixPart buffer (decode_version d buffer)
  unfolding decode_version
  decode_version-Suffix = ground (arith, IsSuffix-refl buffer, IsSuffix-drop 10 buffer)

  decode_method-Suffix : SuffixPart buffer (decode_method d buffer)
  unfolding decode_method
  decode_method-Suffix = grind (arith, IsSuffix-refl, IsSuffix-drop)

  decode_uri-Suffix :
      (uri_try_from : Bytes → Result Uri UriError)
      → SuffixPart buffer (decode_uri uri_try_from d buffer)
  unfolding decode_uri
  decode_uri-Suffix uri_try_from = grind (arith, IsSuffix-refl, IsSuffix-drop)

  module _ (maps : HeaderMaps Map) where
    append_header-Suffix :
        (name value rest : Bytes)
        → IsSuffix rest buffer
        → SuffixPart buffer (append_header maps name value rest d buffer)
    unfolding append_header
    append_header-Suffix name value rest h = ground (
      arith,
      IsSuffix-refl buffer,
      IsSuffix-trans (drop (length value + 2) rest) rest buffer
          (IsSuffix-drop (length value + 2) rest) h,
    )

    line :
        (name : Bytes) (r : DecodeResult Bytes (DecodeError UriError))
        → decode_header_value d.config (drop (length name + 1) buffer) ≡ r
        → SuffixPart buffer (decode_header_line maps name d buffer)
    unfolding decode_header_line
    line name (complete value) h = ground (
      arith,
      IsSuffix-refl buffer,
      append_header-Suffix name value (drop (length name + 1) buffer)
          (IsSuffix-drop (length name + 1) buffer),
    )
    line name (error e') h = ground (arith, IsSuffix-refl buffer)
    line name incomplete h = ground (arith, IsSuffix-refl buffer)

    end_of_headers-Suffix : SuffixPart buffer (end_of_headers maps d buffer)
    unfolding end_of_headers
    end_of_headers-Suffix = ground (arith, IsSuffix-drop 2 buffer)

    header :
        (r : DecodeResult (Option Bytes) (DecodeError UriError))
        → decode_header_name d.config buffer ≡ r
        → SuffixPart buffer (decode_header maps d buffer)
    unfolding decode_header
    header (complete none) h = rw (h, decode_header) end_of_headers-Suffix
    header (complete (some name)) h = rw (h, decode_header) (line name _ refl)
    header (error e') h = ground (arith, IsSuffix-refl buffer)
    header incomplete h = ground (arith, IsSuffix-refl buffer)

    decode_header-Suffix : SuffixPart buffer (decode_header maps d buffer)
    decode_header-Suffix = header _ refl

module _ {Map Uri UriError : Type 0} where
  settle-Suffix :
      (buffer : Bytes) (p : Part Map Uri UriError)
      → SuffixPart buffer p
      → SuffixTurn buffer (settle p)
  unfolding settle
  settle-Suffix buffer (complete _, d, rest) h = h
  settle-Suffix buffer (incomplete, d, rest) h = h
  settle-Suffix buffer (error e, d, rest) h = h

  module _ (maps : HeaderMaps Map) (uri_try_from : Bytes → Result Uri UriError) where
    turn_in-Suffix :
        (state : DecodeState (DecodeError UriError)) (d : Decoder Map Uri UriError) (buffer : Bytes)
        → SuffixTurn buffer (turn_in maps uri_try_from state d buffer)
    unfolding turn_in
    turn_in-Suffix at_header d b = settle-Suffix b _ (decode_header-Suffix d b maps)
    turn_in-Suffix at_method d b = settle-Suffix b _ (decode_method-Suffix d b)
    turn_in-Suffix at_uri d b = settle-Suffix b _ (decode_uri-Suffix d b uri_try_from)
    turn_in-Suffix at_version d b = settle-Suffix b _ (decode_version-Suffix d b)
    turn_in-Suffix at_body d b = settle-Suffix b _ (decode_body-Suffix d b)
    turn_in-Suffix at_end d b = unfold finish in ground (arith, IsSuffix-refl b)
    turn_in-Suffix (at_error _) d b = IsSuffix-refl b

    -- A turn leaves the buffer without its first bytes.
    pub turn-Suffix :
        (d : Decoder Map Uri UriError) (buffer : Bytes)
        → SuffixTurn buffer (turn maps uri_try_from d buffer)
    unfolding turn
    turn-Suffix d b = turn_in-Suffix d.state d b
