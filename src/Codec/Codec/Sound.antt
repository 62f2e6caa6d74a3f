-- ===== src/Codec/Codec/Sound.antt =====
-- rtsp-2/src/protocol/codec/mod.rs: what `decode` promises on every buffer.
use rtsp_rs.Prelude.{
  ◌≡◌, refl, true, ◌||◌, Bytes, Option, none, some, Result, ok, err, arith, IsSuffix, IsSuffix-drop,
}
use rtsp_rs.Header.Map.{HeaderMaps}
use rtsp_rs.Request.{Request}
use rtsp_rs.Response.{Response}
use rtsp_rs.Codec.Decoder.{complete, error, incomplete}
use rtsp_rs.Codec.Decoder.Loop.Report
use rtsp_rs.Codec.Decoder.Loop.Report.{Decoded}
use rtsp_rs.Codec.Decoder.Loop.Total.{Reports}
use rtsp_rs.Codec.Decoder.Request as RequestDecoder
use rtsp_rs.Codec.Decoder.Request.Limits as RequestLimits
use rtsp_rs.Codec.Decoder.Request.Safety as RequestSafety
use rtsp_rs.Codec.Decoder.Request.Turns as RequestTurns
use rtsp_rs.Codec.Decoder.Request.Whole as RequestWhole
use rtsp_rs.Codec.Decoder.Response as ResponseDecoder
use rtsp_rs.Codec.Decoder.Response.Safety as ResponseSafety
use rtsp_rs.Codec.Decoder.Response.Turns as ResponseTurns
use rtsp_rs.Codec.Decoder.Response.Whole as ResponseWhole
use rtsp_rs.Codec.Decoder.Request.Start.{is_at_method}
use rtsp_rs.Codec.Decoder.Response.Start.{is_at_version}
use rtsp_rs.Codec.Codec.{
  new_codec, Codec, Message, request, response, Attempt, attempted, panicked, CodecEvent,
  ProtocolError, send_codec_event, decoded_request, decode_request, decoded_response,
  decode_response,
}

module _ {Map Uri UriError Sink : Type 0} (IoError : Type 0) (maps : HeaderMaps Map)
    (uri_try_from : Bytes → Result Uri UriError) (uri_to_string : Uri → Bytes)
    (unbounded_send : CodecEvent → Sink → Option Sink) (request_config : RequestLimits.Config)
    (response_config : ResponseDecoder.Config) where
  -- Both decoders are sound, and at most one is away from its start.
  pub record IsSound (c : Codec Map Uri UriError Sink) : Type 0 where
    pub request_sound : RequestSafety.IsSound maps request_config c.request_decoder
    pub response_sound : ResponseSafety.IsSound maps response_config c.response_decoder
    pub one_active :
        is_at_method c.request_decoder.state || is_at_version c.response_decoder.state ≡ true

  -- A message within the limits of its decoder.
  abbrev pub AllowedMessage : Message Map Uri → Type 0
  AllowedMessage (request m) = RequestSafety.IsAllowed maps request_config m
  AllowedMessage (response m) = ResponseSafety.IsAllowed maps response_config m

  abbrev pub AllowedResult :
      Result (Option (Message Map Uri)) (ProtocolError UriError IoError) → Type 0
  AllowedResult (ok (some message)) = AllowedMessage message
  AllowedResult (ok none) = Unit {0}
  AllowedResult (err e) = Unit {0}

  -- A call that has not panicked, leaves the codec sound and the end of the buffer, and returns a
  -- message within the limits if it returns one.
  abbrev pub Safe : Bytes → Attempt Map Uri UriError IoError Sink → Type 0
  Safe buffer (attempted result c rest) = IsSound c × IsSuffix rest buffer × AllowedResult result
  Safe buffer panicked = ⊥

  pub send_codec_event-IsSound :
      (event : CodecEvent) (c : Codec Map Uri UriError Sink)
      → IsSound c
      → IsSound (send_codec_event IoError maps uri_try_from uri_to_string unbounded_send event c)
  unfolding send_codec_event
  send_codec_event-IsSound event c s = record {
    request_sound = s.request_sound;
    response_sound = s.response_sound;
    one_active = s.one_active;
  }

  module _ (c : Codec Map Uri UriError Sink) (buffer : Bytes) (s : IsSound c) where
    decoded_request-Safe :
        (r : Decoded
          (RequestDecoder.Decoder Map Uri UriError)
          (Request Bytes Map Uri)
          (RequestDecoder.DecodeError UriError))
        → is_at_version c.response_decoder.state ≡ true
        → Reports
            (RequestSafety.IsSound maps request_config)
            (RequestSafety.IsAllowed maps request_config)
            (RequestSafety.Failed maps)
            buffer
            r
        → Safe buffer
            (decoded_request IoError maps uri_try_from uri_to_string unbounded_send c buffer r)
    unfolding decoded_request send_codec_event
    decoded_request-Safe (Report.returned (complete m) n d) start h = (
      record { request_sound = h.0; response_sound = s.response_sound; one_active = ground arith },
      IsSuffix-drop n buffer,
      h.1,
    )
    decoded_request-Safe (Report.returned incomplete n d) start h = (
      record { request_sound = h.0; response_sound = s.response_sound; one_active = ground arith },
      IsSuffix-drop n buffer,
      tt,
    )
    decoded_request-Safe (Report.returned (error e) n d) start h = (
      record { request_sound = h.0; response_sound = s.response_sound; one_active = ground arith },
      IsSuffix-drop n buffer,
      tt,
    )
    decoded_request-Safe Report.panicked start h = h
    decoded_request-Safe Report.out_of_fuel start h = h

    decoded_response-Safe :
        (r : Decoded (ResponseDecoder.Decoder Map) (Response Bytes Map) ResponseDecoder.DecodeError)
        → is_at_method c.request_decoder.state ≡ true
        → Reports
            (ResponseSafety.IsSound maps response_config)
            (ResponseSafety.IsAllowed maps response_config)
            ResponseSafety.Failed
            buffer
            r
        → Safe buffer
            (decoded_response IoError maps uri_try_from uri_to_string unbounded_send c buffer r)
    unfolding decoded_response send_codec_event
    decoded_response-Safe (Report.returned (complete m) n d) start h = (
      record { request_sound = s.request_sound; response_sound = h.0; one_active = ground arith },
      IsSuffix-drop n buffer,
      h.1,
    )
    decoded_response-Safe (Report.returned incomplete n d) start h = (
      record { request_sound = s.request_sound; response_sound = h.0; one_active = ground arith },
      IsSuffix-drop n buffer,
      tt,
    )
    decoded_response-Safe (Report.returned (error e) n d) start h = (
      record { request_sound = s.request_sound; response_sound = h.0; one_active = ground arith },
      IsSuffix-drop n buffer,
      tt,
    )
    decoded_response-Safe Report.panicked start h = h
    decoded_response-Safe Report.out_of_fuel start h = h

    pub decode_request-Safe :
        is_at_version c.response_decoder.state ≡ true
        → Safe buffer
            (decode_request IoError maps uri_try_from uri_to_string unbounded_send c buffer)
    unfolding decode_request
    decode_request-Safe start = decoded_request-Safe _ start (
        RequestWhole.decode-Reports maps uri_try_from request_config c.request_decoder buffer
          s.request_sound)

    pub decode_response-Safe :
        is_at_method c.request_decoder.state ≡ true
        → Safe buffer
            (decode_response IoError maps uri_try_from uri_to_string unbounded_send c buffer)
    unfolding decode_response
    decode_response-Safe start = decoded_response-Safe _ start (
        ResponseWhole.decode_returns maps response_config c.response_decoder buffer
          s.response_sound)

-- A new codec is sound.
pub new_codec-IsSound :
    {Map Uri UriError Sink : Type 0} (IoError : Type 0) (maps : HeaderMaps Map)
    (uri_try_from : Bytes → Result Uri UriError) (uri_to_string : Uri → Bytes)
    (unbounded_send : CodecEvent → Sink → Option Sink) (tx_event : Option Sink)
    → IsSound IoError maps uri_try_from uri_to_string unbounded_send RequestLimits.default_config
        ResponseDecoder.default_config
        (new_codec IoError maps uri_try_from uri_to_string unbounded_send tx_event)
unfolding new_codec RequestTurns.with_config ResponseTurns.with_config
new_codec-IsSound IoError maps uri_try_from uri_to_string unbounded_send tx_event = record {
  request_sound = RequestWhole.with_config-IsSound maps uri_try_from RequestLimits.default_config;
  response_sound = ResponseSafety.with_config-IsSound maps ResponseDecoder.default_config;
  one_active = refl;
}
