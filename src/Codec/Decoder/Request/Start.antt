-- ===== src/Codec/Decoder/Request/Start.antt =====
-- rtsp-2/src/protocol/codec/decoder/request.rs: a decoder that asks for more bytes at the start of a
-- request has taken none.
use rtsp_rs.Prelude.{
  ◌+◌, ◌≡◌, refl, Bool, true, false, Bytes, length, drop, Option, none, some, Result, arith,
}
use rtsp_rs.Header.Map.{HeaderMaps}
use rtsp_rs.Codec.Decoder.{DecodeResult, complete, error, incomplete}
use rtsp_rs.Codec.Decoder.Loop.Start
use rtsp_rs.Codec.Decoder.Loop.Start.{Moves, Unmoved}
use rtsp_rs.Codec.Decoder.Request.{
  DecodeError, DecodeState, at_body, at_end, at_error, at_header, at_method, at_uri, at_version,
  Decoder, Part, decode_body, decode_header_name, decode_header_value, append_header,
  decode_header_line, end_of_headers, decode_header, decode_method, decode_uri, decode_version,
}
use rtsp_rs.Codec.Decoder.Request.Stable.{turn-IsStable}
use rtsp_rs.Codec.Decoder.Request.Turns.{settle, finish, turn_in, turn, decode}

-- `state() == DecodeState::Method`.
abbrev pub is_at_method : {E : Type 0} → DecodeState E → Bool
is_at_method at_method = true
is_at_method _ = false

module _ {Map Uri UriError : Type 0} (maps : HeaderMaps Map)
    (uri_try_from : Bytes → Result Uri UriError) where
  abbrev pub at_start : Decoder Map Uri UriError → Bool
  at_start d = is_at_method d.state

  -- A method that is done has left the start.
  abbrev PartMoves : Part Map Uri UriError → Type 0
  PartMoves (complete _, d, rest) = at_start d ≡ false
  PartMoves (incomplete, d, rest) = Unit {0}
  PartMoves (error e, d, rest) = Unit {0}

  module _ (d : Decoder Map Uri UriError) (buffer : Bytes) where
    decode_method-Moves : PartMoves (decode_method d buffer)
    unfolding decode_method
    decode_method-Moves = ground arith

    decode_uri-Moves : PartMoves (decode_uri uri_try_from d buffer)
    unfolding decode_uri
    decode_uri-Moves = ground arith

    decode_version-Moves : PartMoves (decode_version d buffer)
    unfolding decode_version
    decode_version-Moves = ground arith

    decode_body-Moves : PartMoves (decode_body d buffer)
    unfolding decode_body
    decode_body-Moves = ground arith

    append_header-Moves :
        (name value rest : Bytes)
        → d.state ≡ at_header
        → PartMoves (append_header maps name value rest d buffer)
    unfolding append_header
    append_header-Moves name value rest at = ground arith

    decode_header_line-Moves :
        (name : Bytes) (r : DecodeResult Bytes (DecodeError UriError))
        → d.state ≡ at_header
        → decode_header_value d.config (drop (length name + 1) buffer) ≡ r
        → PartMoves (decode_header_line maps name d buffer)
    unfolding decode_header_line
    decode_header_line-Moves name (complete value) at e =
        ground (arith, append_header-Moves name value (drop (length name + 1) buffer) at)
    decode_header_line-Moves name (error e') at e = ground arith
    decode_header_line-Moves name incomplete at e = ground arith

    end_of_headers-Moves : PartMoves (end_of_headers maps d buffer)
    unfolding end_of_headers
    end_of_headers-Moves = ground arith

    decode_header-Moves :
        (r : DecodeResult (Option Bytes) (DecodeError UriError))
        → d.state ≡ at_header
        → decode_header_name d.config buffer ≡ r
        → PartMoves (decode_header maps d buffer)
    unfolding decode_header
    decode_header-Moves (complete none) at e = rw (e, decode_header) end_of_headers-Moves
    decode_header-Moves (complete (some name)) at e =
        rw (e, decode_header) (decode_header_line-Moves name _ at refl)
    decode_header-Moves (error e') at e = rw (e, decode_header) tt
    decode_header-Moves incomplete at e = rw (e, decode_header) tt

  settle-Moves : (p : Part Map Uri UriError) → PartMoves p → Moves at_start (settle p)
  unfolding settle
  settle-Moves (complete _, d, rest) h = h
  settle-Moves (incomplete, d, rest) h = tt
  settle-Moves (error e, d, rest) h = tt

  turn_in-Moves :
      (state : DecodeState (DecodeError UriError)) (d : Decoder Map Uri UriError) (buffer : Bytes)
      → d.state ≡ state
      → Moves at_start (turn_in maps uri_try_from state d buffer)
  unfolding turn_in
  turn_in-Moves at_header d b at = settle-Moves _ (decode_header-Moves d b _ at refl)
  turn_in-Moves at_method d b at = settle-Moves _ (decode_method-Moves d b)
  turn_in-Moves at_uri d b at = settle-Moves _ (decode_uri-Moves d b)
  turn_in-Moves at_version d b at = settle-Moves _ (decode_version-Moves d b)
  turn_in-Moves at_body d b at = settle-Moves _ (decode_body-Moves d b)
  turn_in-Moves at_end d b at = unfold finish in ground arith
  turn_in-Moves (at_error _) d b at = tt

  turn-Moves :
      (d : Decoder Map Uri UriError) (buffer : Bytes)
      → Moves at_start (turn maps uri_try_from d buffer)
  unfolding turn
  turn-Moves d b = turn_in-Moves d.state d b refl

  pub decode-Unmoved :
      (d : Decoder Map Uri UriError) (buffer : Bytes)
      → Unmoved at_start d (decode maps uri_try_from d buffer)
  unfolding decode
  decode-Unmoved =
      Start.decode-Unmoved at_start (turn maps uri_try_from) turn-Moves
        (turn-IsStable maps uri_try_from)
