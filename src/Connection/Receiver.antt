-- ===== src/Connection/Receiver.antt =====
-- rtsp-2/src/protocol/connection/receiver.rs: `Receiver`, the task that reads the messages of a
-- connection. The response receiver that a shutdown drops is `Connection.Responses.dropped`; here it is
-- gone.
pub mod Polls
pub mod Shutdowns
pub mod Reading
pub mod Lifecycle
pub mod Backpressure
use mathlib.Core.Option
use rtsp_rs.Prelude.{
  ℕ, ◌+◌, List, [], ◌∷◌, ◌++◌, Option, none, some, Bool, true, false, not, ◌&&◌, if◌then◌else◌,
  Result, ok, err,
}
use rtsp_rs.Header.Map.{HeaderMaps}
use rtsp_rs.Request.{Request}
use rtsp_rs.Response.{Response}
use rtsp_rs.Status
use rtsp_rs.Status.{StatusCode}
use rtsp_rs.Codec.Decoder.Request.{DecodeError, unsupported_version, body_too_long, uri_too_long}
use rtsp_rs.Connection.{Poll, ready, not_ready, failed, SendAnswer}
use rtsp_rs.Connection.Forwarding.{
  RequestReceiver, RequestReceiverError, bad_request, cseq_difference_too_large, is_full,
  has_requests_ready, handle_request,
}
use rtsp_rs.Connection.Forwarding
use rtsp_rs.Connection.Responses.{ResponseReceiver, PendingRequestUpdate, handle_response}
use rtsp_rs.Connection.Responses
use rtsp_rs.Connection.Shutdown.{TimerAnswer, elapsed, pending, at_capacity, timer_error}

pub data Message (Body Map Uri : Type 0) : Type 0 where
  request : Request Body Map Uri → Message Body Map Uri
  response : Response Body Map → Message Body Map Uri

-- `ProtocolError`, with the errors of the request decoder. What the others carry is left out.
pub data ProtocolError (UriError : Type 0) : Type 0 where
  decode_request : DecodeError UriError → ProtocolError UriError
  decode_response decoding_timed_out io unexpected_eof : ProtocolError UriError

pub data CodecEvent : Type 0 where
  decoding_ended decoding_started encoding_ended encoding_started : CodecEvent

-- What a poll of the stream gives behind the messages.
pub data StreamEnd (UriError : Type 0) : Type 0 where
  idle closed : StreamEnd UriError
  broken : ProtocolError UriError → StreamEnd UriError

-- Of the sender handle and the stream the receiver knows that it has them. `replies` are the status
-- codes of the responses that it has sent through the handle, whose other end is assumed to exist.
pub record Receiver (Body Map Uri : Type 0) : Type 0 where
  pub decode_timeout_duration : ℕ
  pub decoding_timer : Option ℕ
  pub forwarding_receiver : Option (RequestReceiver Body Map Uri)
  pub requests_allowed : Bool
  pub response_receiver : Option (ResponseReceiver Body Map)
  pub sender_handle : Bool
  pub stream : Bool
  pub replies : List StatusCode

-- What a poll meets: the updates of pending requests, and whether their stream has ended; the messages,
-- and what is behind them; the codec events; the time and the answers of timers; the answers of the
-- channel to the request handler; and the oneshot channels that are connected.
pub record World (Body Map Uri UriError : Type 0) : Type 0 where
  pub updates : List PendingRequestUpdate
  pub updates_ended : Bool
  pub messages : List (Message Body Map Uri)
  pub stream_end : StreamEnd UriError
  pub events : List CodecEvent
  pub now : ℕ
  pub timer_at : ℕ → TimerAnswer
  pub channel : ℕ → SendAnswer
  pub connected : ℕ → Bool

abbrev pub is_some : {A : Type 0} → Option A → Bool
is_some none = false
is_some (some _) = true

abbrev pub error_status : RequestReceiverError → StatusCode
error_status bad_request = Status.bad_request
error_status cseq_difference_too_large = Status.forbidden

-- `none` where a timer fails with an error that is no lack of capacity: a panic.
timer_poll : TimerAnswer → Option (Poll (Unit {0}) (Unit {0}))
timer_poll elapsed = some (ready tt)
timer_poll pending = some not_ready
timer_poll at_capacity = some (failed tt)
timer_poll timer_error = none

poll_timer : (ℕ → TimerAnswer) → Option ℕ → Option (Poll (Unit {0}) (Unit {0}))
poll_timer timer_at none = some not_ready
poll_timer timer_at (some expiry) = timer_poll (timer_at expiry)

-- The reply to a protocol error, if any.
abbrev pub statuses : {UriError : Type 0} → ProtocolError UriError → List StatusCode
statuses (decode_request unsupported_version) = Status.rtsp_version_not_supported ∷ []
statuses (decode_request body_too_long) = Status.request_message_body_too_large ∷ []
statuses (decode_request uri_too_long) = Status.request_uri_too_long ∷ []
statuses (decode_request _) = Status.bad_request ∷ []
statuses _ = []

module _ {Body Map Uri : Type 0} where
  abbrev pub is_shutdown : Receiver Body Map Uri → Bool
  is_shutdown r =
      (not r.requests_allowed && not (is_some r.response_receiver))
      && not (is_some r.forwarding_receiver)

  -- The timeout of decoding, and the size of the buffer of requests.
  unfoldable pub new : ℕ → ℕ → Receiver Body Map Uri
  new decode_timeout_duration request_buffer_size = record {
    decode_timeout_duration = decode_timeout_duration;
    decoding_timer = none;
    forwarding_receiver = some (Forwarding.new request_buffer_size);
    requests_allowed = true;
    response_receiver = some Responses.new;
    sender_handle = true;
    stream = true;
    replies = [];
  }

  -- `if !forwarding_receiver.has_requests_ready()`.
  keep_ready : Option (RequestReceiver Body Map Uri) → Option (RequestReceiver Body Map Uri)
  keep_ready none = none
  keep_ready (some f) = if has_requests_ready f then some f else none

  unfoldable pub shutdown_request_receiver : Receiver Body Map Uri → Receiver Body Map Uri
  unfolding keep_ready
  shutdown_request_receiver r = record r {
    requests_allowed = false;
    sender_handle = r.sender_handle && is_some r.response_receiver;
    stream = r.stream && is_some r.response_receiver;
    forwarding_receiver = keep_ready r.forwarding_receiver;
  }

  unfoldable pub shutdown_response_receiver : Receiver Body Map Uri → Receiver Body Map Uri
  shutdown_response_receiver r = record r {
    response_receiver = none;
    sender_handle = r.sender_handle && r.requests_allowed;
    stream = r.stream && r.requests_allowed;
  }

  unfoldable pub shutdown_receiving : Receiver Body Map Uri → Receiver Body Map Uri
  shutdown_receiving r = shutdown_response_receiver (shutdown_request_receiver r)

  unfoldable pub shutdown_forwarding_receiver : Receiver Body Map Uri → Receiver Body Map Uri
  shutdown_forwarding_receiver r =
      shutdown_request_receiver (record r { forwarding_receiver = none })

  -- `send_message`, where there is a handle; `none` where `expect` panics.
  reply : Bool → StatusCode → Receiver Body Map Uri → Option (Receiver Body Map Uri)
  reply false status_code r = none
  reply true status_code r = some (record r { replies = r.replies ++ (status_code ∷ []) })

  unfoldable pub handle_request_receiver_error :
      RequestReceiverError → Receiver Body Map Uri → Option (Receiver Body Map Uri)
  unfolding reply
  handle_request_receiver_error e r = reply r.sender_handle (error_status e) r

  unfoldable pub handle_protocol_error :
      {UriError : Type 0} → ProtocolError UriError → Receiver Body Map Uri → Receiver Body Map Uri
  handle_protocol_error e r =
      if r.sender_handle then record r { replies = r.replies ++ statuses e } else r

  unfoldable pub handle_codec_event : ℕ → CodecEvent → Receiver Body Map Uri → Receiver Body Map Uri
  handle_codec_event now decoding_started r = record r {
    decoding_timer = some (now + r.decode_timeout_duration);
  }
  handle_codec_event now decoding_ended r = record r { decoding_timer = none }
  handle_codec_event now _ r = r

  unfoldable pub poll_codec_events :
      ℕ → List CodecEvent → Receiver Body Map Uri → Receiver Body Map Uri
  poll_codec_events now [] r = r
  poll_codec_events now (event ∷ events) r =
      poll_codec_events now events (handle_codec_event now event r)

  unfoldable pub poll_decoding_timer :
      (ℕ → TimerAnswer) → Receiver Body Map Uri → Option (Poll (Unit {0}) (Unit {0}))
  unfolding poll_timer timer_poll
  poll_decoding_timer timer_at r = poll_timer timer_at r.decoding_timer
