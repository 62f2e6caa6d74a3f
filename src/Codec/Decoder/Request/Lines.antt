-- ===== src/Codec/Decoder/Request/Lines.antt =====
-- rtsp-2/src/protocol/codec/decoder/request.rs: a header line, or the empty line behind the headers,
-- is the same with more bytes behind.
use rtsp_rs.Prelude.{
  ◌+◌, ◌≤◌, ◌<◌, ◌≡◌, refl, ◌++◌, Bytes, length, drop, drop-append, Option, none, some, arith,
}
use rtsp_rs.Header.Map.{HeaderMaps}
use rtsp_rs.Codec.Decoder.{DecodeResult, complete, error, incomplete}
use rtsp_rs.Codec.Decoder.Headers.{
  NameExtends, ValueExtends, find_header_name-Extends, find_header_value-Extends,
}
use rtsp_rs.Codec.Decoder.Request.Limits.{Config}
use rtsp_rs.Codec.Decoder.Request.Parts.{Extends}
use rtsp_rs.Codec.Decoder.Request.{
  DecodeError, header_name_too_long, header_value_too_long, Decoder, decode_header_name,
  decode_header_value, append_header, decode_header_line, end_of_headers, decode_header,
}

module _ (UriError : Type 0) (config : Config) (buffer later : Bytes) where
  pub decode_header_name-Extends :
      NameExtends {E = DecodeError UriError} buffer
        (decode_header_name config buffer)
        (decode_header_name config (buffer ++ later))
  unfolding decode_header_name
  decode_header_name-Extends =
      find_header_name-Extends _ (config.header_name_max_length + 1) header_name_too_long buffer
        later

  pub decode_header_value-Extends :
      ValueExtends {E = DecodeError UriError} buffer
        (decode_header_value config buffer)
        (decode_header_value config (buffer ++ later))
  unfolding decode_header_value
  decode_header_value-Extends =
      find_header_value-Extends _ (config.header_value_max_length + 1) header_value_too_long buffer
        later

module _ {Map Uri UriError : Type 0} (maps : HeaderMaps Map) (d : Decoder Map Uri UriError)
    (buffer later : Bytes) where
  append_header-Extends :
      (name value rest : Bytes)
      → length value + 2 ≤ length rest
      → Extends d buffer later
          (append_header maps name value rest d buffer)
          (append_header maps name value (rest ++ later) d (buffer ++ later))
  unfolding append_header
  append_header-Extends name value rest h =
      ground (arith, drop-append (length value + 2) rest later h)

  line_value :
      (name rest : Bytes) (r s : DecodeResult Bytes (DecodeError UriError))
      → decode_header_value d.config rest ≡ r
      → decode_header_value d.config (rest ++ later) ≡ s
      → ValueExtends rest r s
      → drop (length name + 1) buffer ≡ rest
      → drop (length name + 1) (buffer ++ later) ≡ rest ++ later
      → Extends d buffer later
          (decode_header_line maps name d buffer)
          (decode_header_line maps name d (buffer ++ later))
  line_value name rest (complete value) s e f h p q =
      unfold decode_header_line in ground (arith, append_header-Extends name value rest h.1)
  line_value name rest (error e') s e f h p q = unfold decode_header_line in ground arith
  line_value name rest incomplete s e f h p q = unfold decode_header_line in ground arith

  decode_header_line-Extends :
      (name : Bytes)
      → length name < length buffer
      → Extends d buffer later
          (decode_header_line maps name d buffer)
          (decode_header_line maps name d (buffer ++ later))
  decode_header_line-Extends name h =
      let rest = drop (length name + 1) buffer in
      line_value name rest _ _ refl refl (decode_header_value-Extends UriError d.config rest later)
        refl (drop-append (length name + 1) buffer later (omega arith))

  end_of_headers-Extends :
      2 ≤ length buffer
      → Extends d buffer later
          (end_of_headers maps d buffer)
          (end_of_headers maps d (buffer ++ later))
  unfolding end_of_headers
  end_of_headers-Extends h = ground (arith, drop-append 2 buffer later h)

  header_name :
      (r s : DecodeResult (Option Bytes) (DecodeError UriError))
      → decode_header_name d.config buffer ≡ r
      → decode_header_name d.config (buffer ++ later) ≡ s
      → NameExtends buffer r s
      → Extends d buffer later
          (decode_header maps d buffer)
          (decode_header maps d (buffer ++ later))
  unfolding decode_header
  header_name (complete none) s e f h =
      rw (e, decode_header) (rw (f, h.0, decode_header) (end_of_headers-Extends h.1))
  header_name (complete (some name)) s e f h =
      rw (e, decode_header) (rw (f, h.0, decode_header) (decode_header_line-Extends name h.1))
  header_name (error e') s e f h = rw (e, decode_header) tt
  header_name incomplete s e f h = rw (e, decode_header) (refl, refl)

  pub decode_header-Extends :
      Extends d buffer later (decode_header maps d buffer) (decode_header maps d (buffer ++ later))
  decode_header-Extends =
      header_name _ _ refl refl (decode_header_name-Extends UriError d.config buffer later)
