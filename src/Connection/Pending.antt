-- ===== src/Connection/Pending.antt =====
-- rtsp-2/src/protocol/connection/pending.rs: `SendRequest`, the future of a request that waits for its
-- response. A oneshot channel is a number; a poll takes the answers of the channel and of the timers.
pub mod Outcomes
pub mod Polls
pub mod Exchange
pub mod Waking
use rtsp_rs.Prelude.{ℕ, ◌+◌, List, [], ◌∷◌, ◌++◌, Option, none, some, Bool, true, false, Bytes}
use mathlib.Core.Option
use rtsp_rs.Header.CSeq.{CSeq}
use rtsp_rs.Response.{Response}
use rtsp_rs.Connection.{Poll, ready, not_ready, failed}
use rtsp_rs.Connection.Responses.{
  PendingRequestResponse, continue, no_response, response, PendingRequestUpdate,
  remove_pending_request,
}
use rtsp_rs.Connection.Shutdown.{TimerAnswer, elapsed, pending, at_capacity, timer_error}

pub data RequestTimeoutType : Type 0 where
  long short : RequestTimeoutType

pub data OperationError : Type 0 where
  closed request_cancelled : OperationError
  request_timed_out : RequestTimeoutType → OperationError

-- In milliseconds.
abbrev pub request_max_timeout_default_duration : ℕ
request_max_timeout_default_duration = 20000

abbrev pub request_timeout_default_duration : ℕ
request_timeout_default_duration = 10000

pub record RequestOptions : Type 0 where
  pub max_timeout_duration : Option ℕ
  pub timeout_duration : Option ℕ

-- `RequestOptions::new`, which is `RequestOptionsBuilder::new` and `build`.
abbrev pub default_options : RequestOptions
default_options = record {
  max_timeout_duration = some request_max_timeout_default_duration;
  timeout_duration = some request_timeout_default_duration;
}

-- The answer of the receiving end of a oneshot channel to a poll.
pub data ChannelAnswer (Body Map : Type 0) : Type 0 where
  received : PendingRequestResponse Body Map → ChannelAnswer Body Map
  waiting canceled : ChannelAnswer Body Map

-- Of a timer it is known when it expires. `updates` is what was sent through `tx_pending_request`,
-- `is_closed` says that `rx_response` was closed, and `registered` is the channel that wakes the task:
-- the last that was polled and had nothing.
pub record SendRequest : Type 0 where
  pub max_timer : Option ℕ
  pub rx_response : ℕ
  pub sequence_number : CSeq
  pub timeout_duration : Option ℕ
  pub timer : Option ℕ
  pub updates : List PendingRequestUpdate
  pub is_closed : Bool
  pub registered : Option ℕ

-- What a poll meets.
pub record World (Body Map : Type 0) : Type 0 where
  pub now : ℕ
  pub channel : ℕ → ChannelAnswer Body Map
  pub timer_at : ℕ → TimerAnswer

-- A poll returns, or panics.
pub data Run (A : Type 0) : Type 0 where
  returned : Poll A OperationError → SendRequest → Run A
  panicked : Run A

-- The expiry of a timer that is started now.
abbrev pub expiry : ℕ → Option ℕ → Option ℕ
expiry now = Option.map (λ duration. now + duration)

unfoldable pub new : ℕ → ℕ → CSeq → Option ℕ → Option ℕ → SendRequest
new now rx_response sequence_number timeout_duration max_timeout_duration = record {
  max_timer = expiry now max_timeout_duration;
  rx_response = rx_response;
  sequence_number = sequence_number;
  timeout_duration = timeout_duration;
  timer = expiry now timeout_duration;
  updates = [];
  is_closed = false;
  registered = none;
}

unfoldable pub cancel_request : SendRequest → SendRequest
cancel_request s = record s {
  updates = s.updates ++ (remove_pending_request s.sequence_number ∷ []);
  is_closed = true;
}

module _ {Body Map : Type 0} (world : World Body Map) where
  -- `poll_request` behind the poll of the channel.
  unfoldable pub answered : ChannelAnswer Body Map → SendRequest → Run (Response Body Map)
  answered (received (continue rx_response)) s =
      returned not_ready
        (record s { rx_response = rx_response; timer = expiry world.now s.timeout_duration })
  answered (received no_response) s = returned (failed request_cancelled) s
  answered (received (response r)) s = returned (ready r) s
  answered waiting s = returned not_ready (record s { registered = some s.rx_response })
  answered canceled s = panicked

  unfoldable pub poll_request : SendRequest → Run (Response Body Map)
  unfolding answered
  poll_request s = answered (world.channel s.rx_response) s

  -- A timer that is polled, with the error that its expiry means, and what follows if it is still
  -- running.
  unfoldable pub timed :
      TimerAnswer
      → RequestTimeoutType
      → SendRequest
      → Run (Response Body Map)
      → Run (Response Body Map)
  unfolding cancel_request
  timed elapsed kind s rest = returned (failed (request_timed_out kind)) (cancel_request s)
  timed pending kind s rest = rest
  timed at_capacity kind s rest = returned (failed request_cancelled) (cancel_request s)
  timed timer_error kind s rest = panicked

  unfoldable pub poll_a_timer :
      Option ℕ
      → RequestTimeoutType
      → SendRequest
      → Run (Response Body Map)
      → Run (Response Body Map)
  unfolding timed
  poll_a_timer none kind s rest = rest
  poll_a_timer (some expires) kind s rest = timed (world.timer_at expires) kind s rest

  -- `poll_max_timer`, and `poll_timer` behind it.
  unfoldable pub poll_timers : SendRequest → Run (Response Body Map)
  unfolding poll_a_timer
  poll_timers s =
      poll_a_timer s.max_timer long s (poll_a_timer s.timer short s (returned not_ready s))

  -- `poll` behind `poll_request`.
  unfoldable pub polled : Run (Response Body Map) → Run (Response Body Map)
  unfolding poll_timers
  polled (returned (ready r) s) = returned (ready r) s
  polled (returned (failed e) s) = returned (failed e) s
  polled (returned not_ready s) = poll_timers s
  polled panicked = panicked

  unfoldable pub poll : SendRequest → Run (Response Body Map)
  unfolding polled poll_request
  poll s = polled (poll_request s)

  -- `drop`: the request is cancelled unless `poll_is_cancelled`.
  unfoldable pub dropped : ChannelAnswer Body Map → SendRequest → SendRequest
  unfolding cancel_request
  dropped canceled s = s
  dropped (received r) s = cancel_request s
  dropped waiting s = cancel_request s

  unfoldable pub drop : SendRequest → SendRequest
  unfolding dropped
  drop s = dropped (world.channel s.rx_response) s
