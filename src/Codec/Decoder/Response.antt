-- ===== src/Codec/Decoder/Response.antt =====
-- rtsp-2/src/protocol/codec/decoder/response.rs: the response decoder. The header map is an interface.
pub mod Turns
pub mod Start
pub mod Parts
pub mod Whole
pub mod Safety
pub mod Boundary
use rtsp_rs.Prelude.{
  ℕ, ◌+◌, Bytes, bytes, length, take, drop, get_or, Option, none, some, Result, ok, err, leb, ltb,
  if◌then◌else◌, not, ◌==◌,
}
use rtsp_rs.Header.ContentLength.{ContentLength}
use rtsp_rs.Header.ContentLength
use rtsp_rs.Header.Map.{HeaderMaps, typed_try_get}
use rtsp_rs.Header.Name.{HeaderNameError}
use rtsp_rs.Header.Name
use rtsp_rs.Header.Value.{HeaderValueError}
use rtsp_rs.Header.Value
use rtsp_rs.Reason.{ReasonPhraseError}
use rtsp_rs.Reason
use rtsp_rs.Response.{Builder, with_header}
use rtsp_rs.Status.{StatusCodeError}
use rtsp_rs.Status
use rtsp_rs.Version
use rtsp_rs.Version.{Version, is_rtsp2_0}
use rtsp_rs.Codec.Decoder.{
  DecodeResult, complete, error, incomplete, trim_header_name, trim_header_value,
  body_default_max_length, header_default_max_count, header_name_default_max_length,
  header_value_default_max_length, reason_phrase_default_max_length,
}
use rtsp_rs.Codec.Decoder.Headers.{find_header_name, find_header_value}
use rtsp_rs.Codec.Decoder.Search.{find_line_break}
use rtsp_rs.Codec.Decoder.Steps

pub record Config : Type 0 where
  pub body_max_length : ℕ
  pub header_max_count : ℕ
  pub header_name_max_length : ℕ
  pub header_value_max_length : ℕ
  pub reason_phrase_max_length : ℕ

-- `ConfigBuilder::new` and `build`.
abbrev pub default_config : Config
default_config = record {
  body_max_length = body_default_max_length;
  header_max_count = header_default_max_count;
  header_name_max_length = header_name_default_max_length;
  header_value_max_length = header_value_default_max_length;
  reason_phrase_max_length = reason_phrase_default_max_length;
}

pub data DecodeError : Type 0 where
  body_too_long : DecodeError
  header_name : HeaderNameError → DecodeError
  header_name_too_long : DecodeError
  header_value : HeaderValueError → DecodeError
  header_value_too_long invalid_content_length : DecodeError
  reason_phrase : ReasonPhraseError → DecodeError
  reason_phrase_too_long : DecodeError
  status_code : StatusCodeError → DecodeError
  too_many_headers unsupported_version : DecodeError
  version : Version.DecodeError → DecodeError

pub data DecodeState : Type 0 where
  at_body at_end : DecodeState
  at_error : DecodeError → DecodeState
  at_header at_reason_phrase at_status_code at_version : DecodeState

pub record Decoder (Map : Type 0) : Type 0 where
  pub builder : Builder Bytes Map
  pub config : Config
  pub content_length : ContentLength
  pub state : DecodeState

abbrev pub Part : Type 0 → Type 0
Part Map = Steps.Part (Decoder Map) DecodeError

unfoldable pub decode_header_name : Config → Bytes → DecodeResult (Option Bytes) DecodeError
unfolding find_header_name
decode_header_name config =
    find_header_name (config.header_name_max_length + 1) header_name_too_long

unfoldable pub decode_header_value : Config → Bytes → DecodeResult Bytes DecodeError
unfolding find_header_value
decode_header_value config =
    find_header_value (config.header_value_max_length + 1) header_value_too_long

module _ {Map : Type 0} where
  unfoldable pub decode_body : Decoder Map → Bytes → Part Map
  decode_body d buffer = if ltb (length buffer) d.content_length then (incomplete, d, buffer) else (
    complete tt,
    record d {
      state = at_end;
      builder = record (d.builder) { body = some (take d.content_length buffer) };
    },
    drop d.content_length buffer,
  )

  unfoldable pub decode_reason_phrase : Decoder Map → Bytes → Part Map
  decode_reason_phrase d buffer =
      let max_length = d.config.reason_phrase_max_length + 2 in
      elim (find_line_break max_length buffer) [
        | some index ↦ elim (Reason.try_from (take index buffer)) [
          | ok reason ↦ (
            complete tt,
            record d {
              state = at_header;
              builder = record (d.builder) { custom_reason_phrase = some reason };
            },
            drop (index + 2) buffer,
          )
          | err e ↦ (error (reason_phrase e), d, buffer)
        ]
        | none ↦
            if leb max_length (length buffer)
            then (error reason_phrase_too_long, d, buffer)
            else (incomplete, d, buffer)
      ]

  unfoldable pub decode_status_code : Decoder Map → Bytes → Part Map
  decode_status_code d buffer =
      if ltb (length buffer) 4
      then (incomplete, d, buffer)
      else if not (get_or buffer 3 0 == b' ')
      then (error (status_code Status.invalid), d, buffer)
      else elim (Status.try_from_bytes (take 3 buffer)) [
        | ok status ↦ (
          complete tt,
          record d {
            state = at_reason_phrase;
            builder = record (d.builder) { status_code = status };
          },
          drop 4 buffer,
        )
        | err e ↦ (error (status_code e), d, buffer)
      ]

  unfoldable pub decode_version : Decoder Map → Bytes → Part Map
  decode_version d buffer =
      if ltb (length buffer) 9
      then (incomplete, d, buffer)
      else if not (get_or buffer 8 0 == b' ')
      then (error (version Version.invalid), d, buffer)
      else elim (Version.try_decode (take 8 buffer)) [
        | ok v ↦
            if is_rtsp2_0 v
            then (
              complete tt,
              record d { state = at_status_code; builder = record (d.builder) { version = v } },
              drop 9 buffer,
            )
            else (error unsupported_version, d, buffer)
        | err e ↦ (error (version e), d, buffer)
      ]

  module _ (maps : HeaderMaps Map) where
    -- `decode_header` from the trimming of the two parts on.
    unfoldable pub append_header : Bytes → Bytes → Bytes → Decoder Map → Bytes → Part Map
    append_header name value rest d buffer = elim (Name.try_from (trim_header_name name)) [
      | ok parsed_name ↦ elim (Value.try_from (trim_header_value value)) [
        | ok parsed_value ↦ (
          complete tt,
          record d { builder = with_header maps parsed_name parsed_value d.builder },
          drop (length value + 2) rest,
        )
        | err e ↦ (error (header_value e), d, buffer)
      ]
      | err e ↦ (error (header_name e), d, buffer)
    ]

    -- `Some(header_name)`: one header line.
    unfoldable pub decode_header_line : Bytes → Decoder Map → Bytes → Part Map
    unfolding append_header
    decode_header_line name d buffer =
        if leb d.config.header_max_count (maps.values_len d.builder.headers)
        then (error too_many_headers, d, buffer)
        else let rest = drop (length name + 1) buffer in
          elim (decode_header_value d.config rest) [
            | complete value ↦ append_header name value rest d buffer
            | error e ↦ (error e, d, buffer)
            | incomplete ↦ (incomplete, d, buffer)
          ]

    -- `None`: the empty line behind the headers.
    unfoldable pub end_of_headers : Decoder Map → Bytes → Part Map
    end_of_headers d buffer =
        let rest = drop 2 buffer in
        let d' = record d { state = at_body } in
        elim (typed_try_get maps Name.content_length ContentLength.decode d.builder.headers) [
          | ok (some n) ↦
              if ltb d.config.body_max_length n
              then (error body_too_long, d', rest)
              else (complete tt, record d' { content_length = n }, rest)
          | ok none ↦ (complete tt, record d' { content_length = 0 }, rest)
          | err e ↦ (error invalid_content_length, d', rest)
        ]

    unfoldable pub decode_header : Decoder Map → Bytes → Part Map
    unfolding decode_header_line end_of_headers
    decode_header d buffer = elim (decode_header_name d.config buffer) [
      | complete (some name) ↦ decode_header_line name d buffer
      | complete none ↦ end_of_headers d buffer
      | error e ↦ (error e, d, buffer)
      | incomplete ↦ (incomplete, d, buffer)
    ]
