-- ===== src/Codec/Decoder/Response/Start.antt =====
-- rtsp-2/src/protocol/codec/decoder/response.rs: a decoder that asks for more bytes at the start of a
-- response has taken none.
use rtsp_rs.Prelude.{
  ◌+◌, ◌≡◌, refl, Bool, true, false, Bytes, length, drop, Option, none, some, ok, err, arith,
}
use rtsp_rs.Header.Map.{HeaderMaps}
use rtsp_rs.Codec.Decoder.{DecodeResult, complete, error, incomplete}
use rtsp_rs.Codec.Decoder.Loop.Start
use rtsp_rs.Codec.Decoder.Loop.Start.{Moves, Unmoved}
use rtsp_rs.Response
use rtsp_rs.Response.{Response, Built, build}
use rtsp_rs.Codec.Decoder.Steps.{settle}
use rtsp_rs.Codec.Decoder.Response.{
  DecodeError, DecodeState, at_body, at_end, at_error, at_header, at_reason_phrase, at_status_code,
  at_version, Decoder, Part, decode_body, decode_header_name, decode_header_value, append_header,
  decode_header_line, end_of_headers, decode_header, decode_reason_phrase, decode_status_code,
  decode_version,
}
use rtsp_rs.Codec.Decoder.Response.Turns.{fail, finish_built, turn_in, turn, decode}
use rtsp_rs.Codec.Decoder.Response.Whole.{turn-IsStable}

-- `state() == DecodeState::Version`.
abbrev pub is_at_version : DecodeState → Bool
is_at_version at_version = true
is_at_version _ = false

module _ {Map : Type 0} (maps : HeaderMaps Map) where
  abbrev pub at_start : Decoder Map → Bool
  at_start d = is_at_version d.state

  -- A method that is done has left the start.
  abbrev PartMoves : Part Map → Type 0
  PartMoves (complete _, d, rest) = at_start d ≡ false
  PartMoves (incomplete, d, rest) = Unit {0}
  PartMoves (error e, d, rest) = Unit {0}

  module _ (d : Decoder Map) (buffer : Bytes) where
    decode_version-Moves : PartMoves (decode_version d buffer)
    unfolding decode_version
    decode_version-Moves = ground arith

    decode_status_code-Moves : PartMoves (decode_status_code d buffer)
    unfolding decode_status_code
    decode_status_code-Moves = ground arith

    decode_reason_phrase-Moves : PartMoves (decode_reason_phrase d buffer)
    unfolding decode_reason_phrase
    decode_reason_phrase-Moves = ground arith

    decode_body-Moves : PartMoves (decode_body d buffer)
    unfolding decode_body
    decode_body-Moves = ground arith

    append_header-Moves :
        (name value rest : Bytes)
        → d.state ≡ at_header
        → PartMoves (append_header maps name value rest d buffer)
    unfolding append_header
    append_header-Moves name value rest at = ground arith

    decode_header_line-Moves :
        (name : Bytes) (r : DecodeResult Bytes DecodeError)
        → d.state ≡ at_header
        → decode_header_value d.config (drop (length name + 1) buffer) ≡ r
        → PartMoves (decode_header_line maps name d buffer)
    unfolding decode_header_line
    decode_header_line-Moves name (complete value) at e =
        ground (arith, append_header-Moves name value (drop (length name + 1) buffer) at)
    decode_header_line-Moves name (error e') at e = ground arith
    decode_header_line-Moves name incomplete at e = ground arith

    end_of_headers-Moves : PartMoves (end_of_headers maps d buffer)
    unfolding end_of_headers
    end_of_headers-Moves = ground arith

    decode_header-Moves :
        (r : DecodeResult (Option Bytes) DecodeError)
        → d.state ≡ at_header
        → decode_header_name d.config buffer ≡ r
        → PartMoves (decode_header maps d buffer)
    unfolding decode_header
    decode_header-Moves (complete none) at e = rw (e, decode_header) end_of_headers-Moves
    decode_header-Moves (complete (some name)) at e =
        rw (e, decode_header) (decode_header_line-Moves name _ at refl)
    decode_header-Moves (error e') at e = rw (e, decode_header) tt
    decode_header-Moves incomplete at e = rw (e, decode_header) tt

  settle-Moves :
      (p : Part Map) → PartMoves p → Moves {M = Response Bytes Map} at_start (settle fail p)
  unfolding settle
  settle-Moves (complete _, d, rest) h = h
  settle-Moves (incomplete, d, rest) h = tt
  settle-Moves (error e, d, rest) h = tt

  finish_built-Moves :
      (built : Built Bytes Map) (d : Decoder Map) (buffer : Bytes)
      → Moves at_start (finish_built maps built d buffer)
  unfolding finish_built
  finish_built-Moves (Response.returned (ok response)) d buffer = tt
  finish_built-Moves (Response.returned (err _)) d buffer = tt
  finish_built-Moves Response.panicked d buffer = tt

  turn_in-Moves :
      (state : DecodeState) (d : Decoder Map) (buffer : Bytes)
      → d.state ≡ state
      → Moves at_start (turn_in maps state d buffer)
  unfolding turn_in
  turn_in-Moves at_header d b at = settle-Moves _ (decode_header-Moves d b _ at refl)
  turn_in-Moves at_version d b at = settle-Moves _ (decode_version-Moves d b)
  turn_in-Moves at_status_code d b at = settle-Moves _ (decode_status_code-Moves d b)
  turn_in-Moves at_reason_phrase d b at = settle-Moves _ (decode_reason_phrase-Moves d b)
  turn_in-Moves at_body d b at = settle-Moves _ (decode_body-Moves d b)
  turn_in-Moves at_end d b at = finish_built-Moves (build d.builder) d b
  turn_in-Moves (at_error _) d b at = tt

  turn-Moves : (d : Decoder Map) (buffer : Bytes) → Moves at_start (turn maps d buffer)
  unfolding turn
  turn-Moves d b = turn_in-Moves d.state d b refl

  pub decode-Unmoved :
      (d : Decoder Map) (buffer : Bytes) → Unmoved at_start d (decode maps d buffer)
  unfolding decode
  decode-Unmoved = Start.decode-Unmoved at_start (turn maps) turn-Moves (turn-IsStable maps)
