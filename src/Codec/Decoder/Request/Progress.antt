-- ===== src/Codec/Decoder/Request/Progress.antt =====
-- rtsp-2/src/protocol/codec/decoder/request.rs: every turn of the loop that continues takes bytes of
-- the buffer or moves on to the end of the request.
use rtsp_rs.Prelude.{
  ℕ, ◌+◌, ◌≤◌, ◌<◌, ◌≡◌, refl, [], Bytes, length, drop, length-drop, Option, none, some, Result,
  arith,
}
use rtsp_rs.Header.Map.{HeaderMaps}
use rtsp_rs.Codec.Decoder.{DecodeResult, complete, error, incomplete}
use rtsp_rs.Codec.Decoder.Loop.Fuel.{Lower, Lowers}
use rtsp_rs.Codec.Decoder.Loop.Report.{fuel}
use rtsp_rs.Codec.Decoder.Search.{find_byte, find_byte-Found, Found}
use rtsp_rs.Codec.Decoder.Request.{
  DecodeError, DecodeState, at_body, at_end, at_error, at_header, at_method, at_uri, at_version,
  Decoder, Part, decode_body, decode_header_name, decode_header_value, append_header,
  decode_header_line, end_of_headers, decode_header, decode_method, decode_uri, decode_version,
}
use rtsp_rs.Codec.Decoder.Headers.{NameExtends, ValueExtends}
use rtsp_rs.Codec.Decoder.Request.Lines.{decode_header_name-Extends, decode_header_value-Extends}
use rtsp_rs.Codec.Decoder.Request.Turns.{settle, finish, turn_in, turn}

-- The turns that take no byte: that of an empty body, and the last.
abbrev pub rank : {E : Type 0} → DecodeState E → ℕ
rank at_end = 0
rank (at_error e) = 0
rank at_body = 1
rank _ = 2

pub rank-le : {E : Type 0} (s : DecodeState E) → rank s ≤ 2
rank-le at_end = omega arith
rank-le at_body = omega arith
rank-le (at_error e) = omega arith
rank-le _ = omega arith

abbrev pub measure : {Map Uri UriError : Type 0} → Decoder Map Uri UriError → Bytes → ℕ
measure d buffer = length buffer + rank d.state

abbrev Shrinks : {Map Uri UriError : Type 0} → ℕ → Part Map Uri UriError → Type 0
Shrinks n (complete _, d, rest) = measure d rest < n
Shrinks n (incomplete, d, rest) = Unit {0}
Shrinks n (error e, d, rest) = Unit {0}

module _ {Map Uri UriError : Type 0} (d : Decoder Map Uri UriError) (buffer : Bytes) where
  decode_body-Shrinks : Shrinks (length buffer + 1) (decode_body d buffer)
  unfolding decode_body
  decode_body-Shrinks = ground (arith, length-drop d.content_length buffer)

  decode_version-Shrinks : Shrinks (length buffer + 2) (decode_version d buffer)
  unfolding decode_version
  decode_version-Shrinks = ground (arith, length-drop 10 buffer)

  method_hit :
      (o : Option ℕ)
      → find_byte b' ' (d.config.method_max_length + 1) buffer ≡ o
      → Found b' ' (d.config.method_max_length + 1) buffer [] o
      → Shrinks (length buffer + 2) (decode_method d buffer)
  unfolding decode_method
  method_hit none e f = ground arith
  method_hit (some i) e f = ground (arith, length-drop (i + 1) buffer)

  decode_method-Shrinks : Shrinks (length buffer + 2) (decode_method d buffer)
  decode_method-Shrinks = method_hit _ refl (find_byte-Found _ _ buffer [])

  module _ (uri_try_from : Bytes → Result Uri UriError) where
    uri_hit :
        (o : Option ℕ)
        → find_byte b' ' (d.config.uri_max_length + 1) buffer ≡ o
        → Found b' ' (d.config.uri_max_length + 1) buffer [] o
        → Shrinks (length buffer + 2) (decode_uri uri_try_from d buffer)
    unfolding decode_uri
    uri_hit none e f = ground arith
    uri_hit (some i) e f = ground (arith, length-drop (i + 1) buffer)

    decode_uri-Shrinks : Shrinks (length buffer + 2) (decode_uri uri_try_from d buffer)
    decode_uri-Shrinks = uri_hit _ refl (find_byte-Found _ _ buffer [])

  module _ (maps : HeaderMaps Map) (at : d.state ≡ at_header) where
    append_header-Shrinks :
        (name value rest : Bytes)
        → length value + 2 ≤ length rest
        → length rest < length buffer
        → Shrinks (length buffer + 2) (append_header maps name value rest d buffer)
    unfolding append_header
    append_header-Shrinks name value rest h k = ground (arith, length-drop (length value + 2) rest)

    line_value :
        (name : Bytes) (r s : DecodeResult Bytes (DecodeError UriError))
        → length name < length buffer
        → decode_header_value d.config (drop (length name + 1) buffer) ≡ r
        → ValueExtends (drop (length name + 1) buffer) r s
        → Shrinks (length buffer + 2) (decode_header_line maps name d buffer)
    line_value name (complete value) s k e h =
        unfold decode_header_line in
        ground (
          arith,
          append_header-Shrinks name value (drop (length name + 1) buffer) h.1
              (omega (arith, length-drop (length name + 1) buffer)),
        )
    line_value name (error e') s k e h = unfold decode_header_line in ground arith
    line_value name incomplete s k e h = unfold decode_header_line in ground arith

    end_of_headers-Shrinks :
        2 ≤ length buffer → Shrinks (length buffer + 2) (end_of_headers maps d buffer)
    unfolding end_of_headers
    end_of_headers-Shrinks h = ground (arith, length-drop 2 buffer)

    header_name :
        (r s : DecodeResult (Option Bytes) (DecodeError UriError))
        → decode_header_name d.config buffer ≡ r
        → NameExtends buffer r s
        → Shrinks (length buffer + 2) (decode_header maps d buffer)
    unfolding decode_header
    header_name (complete none) s e h = rw (e, decode_header) (end_of_headers-Shrinks h.1)
    header_name (complete (some name)) s e h =
        rw (e, decode_header)
          (line_value name _ _ h.1 refl
            (decode_header_value-Extends UriError d.config (drop (length name + 1) buffer) []))
    header_name (error e') s e h = rw (e, decode_header) tt
    header_name incomplete s e h = rw (e, decode_header) tt

    decode_header-Shrinks : Shrinks (length buffer + 2) (decode_header maps d buffer)
    decode_header-Shrinks =
        header_name _ _ refl (decode_header_name-Extends UriError d.config buffer [])

module _ {Map Uri UriError : Type 0} where
  settle-Lower : (n : ℕ) (p : Part Map Uri UriError) → Shrinks n p → Lower measure n (settle p)
  unfolding settle
  settle-Lower n (complete _, d, rest) h = h
  settle-Lower n (incomplete, d, rest) h = tt
  settle-Lower n (error e, d, rest) h = tt

  module _ (maps : HeaderMaps Map) (uri_try_from : Bytes → Result Uri UriError) where
    turn_in-Lower :
        (state : DecodeState (DecodeError UriError)) (d : Decoder Map Uri UriError) (buffer : Bytes)
        → d.state ≡ state
        → Lower measure (length buffer + rank state) (turn_in maps uri_try_from state d buffer)
    unfolding turn_in
    turn_in-Lower at_header d b e = settle-Lower _ _ (decode_header-Shrinks d b maps e)
    turn_in-Lower at_method d b e = settle-Lower _ _ (decode_method-Shrinks d b)
    turn_in-Lower at_uri d b e = settle-Lower _ _ (decode_uri-Shrinks d b uri_try_from)
    turn_in-Lower at_version d b e = settle-Lower _ _ (decode_version-Shrinks d b)
    turn_in-Lower at_body d b e = settle-Lower _ _ (decode_body-Shrinks d b)
    turn_in-Lower at_end d b e = unfold finish in ground arith
    turn_in-Lower (at_error _) d b e = tt

    pub turn-Lowers : Lowers (turn maps uri_try_from) measure
    unfolding turn
    turn-Lowers d b = turn_in-Lower d.state d b refl

pub enough :
    {Map Uri UriError : Type 0} (d : Decoder Map Uri UriError) (buffer : Bytes)
    → measure d buffer < fuel buffer
enough d buffer = omega (arith, rank-le d.state)
