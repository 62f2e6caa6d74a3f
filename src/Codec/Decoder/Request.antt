-- ===== src/Codec/Decoder/Request.antt =====
-- rtsp-2/src/protocol/codec/decoder/request.rs: the request decoder. What it takes from other parts
-- is an interface: the header map, and `URI::try_from`.
pub mod Limits
pub mod Turns
pub mod Start
pub mod Parts
pub mod Lines
pub mod Stable
pub mod Progress
pub mod Safety
pub mod Suffix
pub mod Whole
pub mod Chunks
pub mod Boundary
use rtsp_rs.Prelude.{
  ℕ, ◌+◌, ◌-◌, Bytes, bytes, length, take, drop, Option, none, some, Result, ok, err, leb, ltb,
  if◌then◌else◌, not, bytes_eq, starts_with, ◌==◌,
}
use rtsp_rs.Header.ContentLength.{ContentLength}
use rtsp_rs.Header.ContentLength
use rtsp_rs.Header.Map.{HeaderMaps, typed_try_get}
use rtsp_rs.Header.Name.{HeaderNameError, HeaderName}
use rtsp_rs.Header.Name
use rtsp_rs.Header.Value.{HeaderValueError}
use rtsp_rs.Header.Value
use rtsp_rs.Method.{MethodError}
use rtsp_rs.Method
use rtsp_rs.Request.{Builder, with_header}
use rtsp_rs.Version
use rtsp_rs.Version.{Version, is_rtsp2_0}
use rtsp_rs.Codec.Decoder.{
  DecodeResult, complete, error, incomplete, trim_header_name, trim_header_value,
}
use rtsp_rs.Codec.Decoder.Headers.{find_header_name, find_header_value}
use rtsp_rs.Codec.Decoder.Search.{find_byte}
use Limits.{Config}

pub data DecodeError (UriError : Type 0) : Type 0 where
  body_too_long : DecodeError UriError
  header_name : HeaderNameError → DecodeError UriError
  header_name_too_long : DecodeError UriError
  header_value : HeaderValueError → DecodeError UriError
  header_value_too_long invalid_content_length : DecodeError UriError
  method : MethodError → DecodeError UriError
  method_too_long too_many_headers : DecodeError UriError
  uri : UriError → DecodeError UriError
  uri_too_long unsupported_version : DecodeError UriError
  version : Version.DecodeError → DecodeError UriError

pub data DecodeState (E : Type 0) : Type 0 where
  at_body at_end : DecodeState E
  at_error : E → DecodeState E
  at_header at_method at_uri at_version : DecodeState E

pub record Decoder (Map Uri UriError : Type 0) : Type 0 where
  pub builder : Builder Bytes Map Uri
  pub config : Config
  pub content_length : ContentLength
  pub state : DecodeState (DecodeError UriError)

-- The result of one of the methods of `Decoder`, the decoder after it, and the bytes left.
abbrev pub Part : Type 0 → Type 0 → Type 0 → Type 0
Part Map Uri UriError =
    DecodeResult (Unit {0}) (DecodeError UriError) × Decoder Map Uri UriError × Bytes

module _ {UriError : Type 0} where
  unfoldable pub decode_header_name :
      Config → Bytes → DecodeResult (Option Bytes) (DecodeError UriError)
  unfolding find_header_name
  decode_header_name config =
      find_header_name (config.header_name_max_length + 1) header_name_too_long

  unfoldable pub decode_header_value : Config → Bytes → DecodeResult Bytes (DecodeError UriError)
  unfolding find_header_value
  decode_header_value config =
      find_header_value (config.header_value_max_length + 1) header_value_too_long

module _ {Map Uri UriError : Type 0} where
  unfoldable pub decode_body : Decoder Map Uri UriError → Bytes → Part Map Uri UriError
  decode_body d buffer = if ltb (length buffer) d.content_length then (incomplete, d, buffer) else (
    complete tt,
    record d {
      state = at_end;
      builder = record (d.builder) { body = some (take d.content_length buffer) };
    },
    drop d.content_length buffer,
  )

  unfoldable pub decode_method : Decoder Map Uri UriError → Bytes → Part Map Uri UriError
  decode_method d buffer =
      let max_length = d.config.method_max_length + 1 in
      elim (find_byte b' ' max_length buffer) [
        | some index ↦ elim (Method.try_from (take index buffer)) [
          | ok m ↦ (
            complete tt,
            record d { state = at_uri; builder = record (d.builder) { method = some m } },
            drop (index + 1) buffer,
          )
          | err e ↦ (error (method e), d, buffer)
        ]
        | none ↦
            if leb max_length (length buffer)
            then (error method_too_long, d, buffer)
            else (incomplete, d, buffer)
      ]

  unfoldable pub decode_version : Decoder Map Uri UriError → Bytes → Part Map Uri UriError
  decode_version d buffer =
      if ltb (length buffer) 10
      then (incomplete, d, buffer)
      else if not (bytes_eq (take 2 (drop 8 buffer)) (bytes "\r\n"))
      then (error (version Version.invalid), d, buffer)
      else elim (Version.try_decode (take 8 buffer)) [
        | ok v ↦
            if is_rtsp2_0 v
            then (
              complete tt,
              record d { state = at_header; builder = record (d.builder) { version = v } },
              drop 10 buffer,
            )
            else (error unsupported_version, d, buffer)
        | err e ↦ (error (version e), d, buffer)
      ]

  module _ (uri_try_from : Bytes → Result Uri UriError) where
    unfoldable pub decode_uri : Decoder Map Uri UriError → Bytes → Part Map Uri UriError
    decode_uri d buffer =
        let max_length = d.config.uri_max_length + 1 in
        elim (find_byte b' ' max_length buffer) [
          | some index ↦ elim (uri_try_from (take index buffer)) [
            | ok u ↦ (
              complete tt,
              record d { state = at_version; builder = record (d.builder) { uri = some u } },
              drop (index + 1) buffer,
            )
            | err e ↦ (error (uri e), d, buffer)
          ]
          | none ↦
              if leb max_length (length buffer)
              then (error uri_too_long, d, buffer)
              else (incomplete, d, buffer)
        ]

  module _ (maps : HeaderMaps Map) where
    -- `decode_header` from the trimming of the two parts on.
    unfoldable pub append_header :
        Bytes → Bytes → Bytes → Decoder Map Uri UriError → Bytes → Part Map Uri UriError
    append_header name value rest d buffer = elim (Name.try_from (trim_header_name name)) [
      | ok parsed_name ↦ elim (Value.try_from (trim_header_value value)) [
        | ok parsed_value ↦ (
          complete tt,
          record d { builder = with_header maps parsed_name parsed_value d.builder },
          drop (length value + 2) rest,
        )
        | err e ↦ (error (header_value e), d, buffer)
      ]
      | err e ↦ (error (header_name e), d, buffer)
    ]

    -- `Some(header_name)`: one header line.
    unfoldable pub decode_header_line :
        Bytes → Decoder Map Uri UriError → Bytes → Part Map Uri UriError
    unfolding append_header
    decode_header_line name d buffer =
        if leb d.config.header_max_count (maps.values_len d.builder.headers)
        then (error too_many_headers, d, buffer)
        else let rest = drop (length name + 1) buffer in
          elim (decode_header_value d.config rest) [
            | complete value ↦ append_header name value rest d buffer
            | error e ↦ (error e, d, buffer)
            | incomplete ↦ (incomplete, d, buffer)
          ]

    -- `None`: the empty line behind the headers.
    unfoldable pub end_of_headers : Decoder Map Uri UriError → Bytes → Part Map Uri UriError
    end_of_headers d buffer =
        let rest = drop 2 buffer in
        let d' = record d { state = at_body } in
        elim (typed_try_get maps Name.content_length ContentLength.decode d.builder.headers) [
          | ok (some n) ↦
              if ltb d.config.body_max_length n
              then (error body_too_long, d', rest)
              else (complete tt, record d' { content_length = n }, rest)
          | ok none ↦ (complete tt, record d' { content_length = 0 }, rest)
          | err e ↦ (error invalid_content_length, d', rest)
        ]

    unfoldable pub decode_header : Decoder Map Uri UriError → Bytes → Part Map Uri UriError
    unfolding decode_header_line end_of_headers
    decode_header d buffer = elim (decode_header_name d.config buffer) [
      | complete (some name) ↦ decode_header_line name d buffer
      | complete none ↦ end_of_headers d buffer
      | error e ↦ (error e, d, buffer)
      | incomplete ↦ (incomplete, d, buffer)
    ]
