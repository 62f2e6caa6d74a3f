-- ===== src/Codec/Codec.antt =====
-- rtsp-2/src/protocol/codec/mod.rs: the codec, which chooses between the two decoders and tells a sink
-- about it. Sending to the sink is an argument.

pub mod Sound
pub mod Safe
pub mod Idle
pub mod Delivery
pub mod LineBreaks
pub mod Parts
pub mod RequestParts
pub mod ResponseParts
pub mod Choice
pub mod Chunks
use rtsp_rs.Prelude.{
  ℕ, Bool, true, false, not, ◌&&◌, List, [], ◌∷◌, ◌++◌, ◌==◌, Bytes, bytes, length, drop, ltb,
  starts_with, Option, none, some, Result, ok, err, if◌then◌else◌,
}
use rtsp_rs.Header.Map.{HeaderMaps}
use rtsp_rs.Request.{Request}
use rtsp_rs.Response.{Response}
use rtsp_rs.Codec.Decoder.{DecodeResult, complete, error, incomplete}
use rtsp_rs.Codec.Decoder.Loop.Report
use rtsp_rs.Codec.Decoder.Loop.Report.{Decoded}
use rtsp_rs.Codec.Decoder.Request as RequestDecoder
use rtsp_rs.Codec.Decoder.Request.Start.{is_at_method}
use rtsp_rs.Codec.Decoder.Response.Start.{is_at_version}
use rtsp_rs.Codec.Decoder.Request.Turns as RequestTurns
use rtsp_rs.Codec.Decoder.Request.Limits as RequestLimits
use rtsp_rs.Codec.Decoder.Response as ResponseDecoder
use rtsp_rs.Codec.Decoder.Response.Turns as ResponseTurns
use rtsp_rs.Codec.Encoder.{encode_request, encode_response}

pub data CodecEvent : Type 0 where
  decoding_ended decoding_started encoding_ended encoding_started : CodecEvent

pub data Message (Map Uri : Type 0) : Type 0 where
  request : Request Bytes Map Uri → Message Map Uri
  response : Response Bytes Map → Message Map Uri

-- The errors of the two decoders.
pub data DecodeError (UriError : Type 0) : Type 0 where
  request : RequestDecoder.DecodeError UriError → DecodeError UriError
  response : ResponseDecoder.DecodeError → DecodeError UriError

pub data ProtocolError (UriError IoError : Type 0) : Type 0 where
  decode_error : DecodeError UriError → ProtocolError UriError IoError
  decoding_timed_out : ProtocolError UriError IoError
  io : IoError → ProtocolError UriError IoError
  unexpected_eof : ProtocolError UriError IoError

pub record Codec (Map Uri UriError Sink : Type 0) : Type 0 where
  pub request_decoder : RequestDecoder.Decoder Map Uri UriError
  pub response_decoder : ResponseDecoder.Decoder Map
  pub tx_event : Option Sink

abbrev pub minimum_info_line_size : ℕ
minimum_info_line_size = 5

-- `while buffer.starts_with(b"\r\n") { buffer.split_to(2); }`
unfoldable pub skip_line_breaks : Bytes → Bytes
skip_line_breaks [] = []
skip_line_breaks (a ∷ []) = a ∷ []
skip_line_breaks (a ∷ b ∷ rest) =
    let more = skip_line_breaks rest in if a == b'\r' && b == b'\n' then more else a ∷ b ∷ rest

-- What a call of `decode` returns, with the codec and the buffer behind it; or the panic of a decoder.
pub data Attempt (Map Uri UriError IoError Sink : Type 0) : Type 0 where
  attempted :
      Result (Option (Message Map Uri)) (ProtocolError UriError IoError)
      → Codec Map Uri UriError Sink
      → Bytes
      → Attempt Map Uri UriError IoError Sink
  panicked : Attempt Map Uri UriError IoError Sink

-- `unbounded_send` of a sink returns the sink behind it, or nothing when it fails.
module _ {Map Uri UriError Sink : Type 0} (IoError : Type 0) (maps : HeaderMaps Map)
    (uri_try_from : Bytes → Result Uri UriError) (uri_to_string : Uri → Bytes)
    (unbounded_send : CodecEvent → Sink → Option Sink) where
  abbrev pub CodecOf : Type 0
  CodecOf = Codec Map Uri UriError Sink

  abbrev pub AttemptOf : Type 0
  AttemptOf = Attempt Map Uri UriError IoError Sink

  -- `new` and `with_events`.
  unfoldable pub new_codec : Option Sink → CodecOf
  new_codec tx_event = record {
    request_decoder = RequestTurns.with_config maps RequestLimits.default_config;
    response_decoder = ResponseTurns.with_config maps ResponseDecoder.default_config;
    tx_event = tx_event;
  }

  -- The sink behind an event; it is given up when sending fails.
  unfoldable pub told : CodecEvent → Option Sink → Option Sink
  told event (some tx_event) = unbounded_send event tx_event
  told event none = none

  unfoldable pub send_codec_event : CodecEvent → CodecOf → CodecOf
  unfolding told
  send_codec_event event c = record c { tx_event = told event c.tx_event }

  -- `decode_request` behind the call of the decoder.
  unfoldable pub decoded_request :
      CodecOf
      → Bytes
      → Decoded
          (RequestDecoder.Decoder Map Uri UriError)
          (Request Bytes Map Uri)
          (RequestDecoder.DecodeError UriError)
      → AttemptOf
  unfolding send_codec_event
  decoded_request c buffer (Report.returned (complete message) n d) =
      attempted (ok (some (request message)))
        (send_codec_event decoding_ended (record c { request_decoder = d })) (drop n buffer)
  decoded_request c buffer (Report.returned incomplete n d) =
      attempted (ok none) (record c { request_decoder = d }) (drop n buffer)
  decoded_request c buffer (Report.returned (error e) n d) =
      attempted (err (decode_error (DecodeError.request e)))
        (send_codec_event decoding_ended (record c { request_decoder = d })) (drop n buffer)
  decoded_request c buffer Report.panicked = panicked
  decoded_request c buffer Report.out_of_fuel = panicked

  unfoldable pub decode_request : CodecOf → Bytes → AttemptOf
  unfolding decoded_request
  decode_request c buffer =
      decoded_request c buffer (RequestTurns.decode maps uri_try_from c.request_decoder buffer)

  -- `decode_response` behind the call of the decoder.
  unfoldable pub decoded_response :
      CodecOf
      → Bytes
      → Decoded (ResponseDecoder.Decoder Map) (Response Bytes Map) ResponseDecoder.DecodeError
      → AttemptOf
  unfolding send_codec_event
  decoded_response c buffer (Report.returned (complete message) n d) =
      attempted (ok (some (response message)))
        (send_codec_event decoding_ended (record c { response_decoder = d })) (drop n buffer)
  decoded_response c buffer (Report.returned incomplete n d) =
      attempted (ok none) (record c { response_decoder = d }) (drop n buffer)
  decoded_response c buffer (Report.returned (error e) n d) =
      attempted (err (decode_error (DecodeError.response e)))
        (send_codec_event decoding_ended (record c { response_decoder = d })) (drop n buffer)
  decoded_response c buffer Report.panicked = panicked
  decoded_response c buffer Report.out_of_fuel = panicked

  unfoldable pub decode_response : CodecOf → Bytes → AttemptOf
  unfolding decoded_response
  decode_response c buffer =
      decoded_response c buffer (ResponseTurns.decode maps c.response_decoder buffer)

  -- `decode` when both decoders are at their start, behind the line breaks.
  unfoldable pub decode_start : CodecOf → Bytes → AttemptOf
  unfolding send_codec_event decode_request decode_response
  decode_start c buffer =
      let started = if ltb 0 (length buffer) then send_codec_event decoding_started c else c in
      if ltb (length buffer) minimum_info_line_size
      then attempted (ok none) started buffer
      else if starts_with (bytes "RTSP/") buffer
      then decode_response started buffer
      else decode_request started buffer

  unfoldable pub decode : CodecOf → Bytes → AttemptOf
  unfolding decode_start decode_request decode_response skip_line_breaks
  decode c buffer =
      if not (is_at_method c.request_decoder.state)
      then decode_request c buffer
      else if not (is_at_version c.response_decoder.state)
      then decode_response c buffer
      else decode_start c (skip_line_breaks buffer)

  -- `decode_eof` behind the call of `decode`.
  unfoldable pub at_eof : AttemptOf → AttemptOf
  at_eof (attempted (ok (some message)) c rest) = attempted (ok (some message)) c rest
  at_eof (attempted (ok none) c rest) =
      attempted (if ltb 0 (length rest) then err unexpected_eof else ok none) c rest
  at_eof (attempted (err e) c rest) = attempted (err e) c rest
  at_eof panicked = panicked

  unfoldable pub decode_eof : CodecOf → Bytes → AttemptOf
  unfolding decode at_eof
  decode_eof c buffer = at_eof (decode c buffer)

  -- The bytes of a message behind those of the buffer.
  unfoldable pub encode_message : Message Map Uri → Bytes → Bytes
  unfolding encode_request encode_response
  encode_message (request message) buffer = encode_request maps uri_to_string message buffer
  encode_message (response message) buffer = encode_response maps message buffer

  -- The codec behind it and the buffer; it always returns `Ok(())`.
  unfoldable pub encode : Message Map Uri → CodecOf → Bytes → CodecOf × Bytes
  unfolding send_codec_event encode_message
  encode message c buffer =
      let started = send_codec_event encoding_started c in
      (send_codec_event encoding_ended started, encode_message message buffer)
