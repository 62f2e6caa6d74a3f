-- ===== src/Connection/Handler.antt =====
-- rtsp-2/src/protocol/connection/handler.rs: `RequestHandler`, which services requests one at a time.
-- The service and its futures are an argument, as is the test for the scheme `rtspu` of a URI.
pub mod Serving
pub mod InOrder
use rtsp_rs.Prelude.{
  ℕ, ◌+◌, List, [], ◌∷◌, ◌++◌, Option, none, some, Bool, true, false, not, ◌&&◌, ◌==◌, ltb,
  if◌then◌else◌,
}
use rtsp_rs.Header.CSeq.{CSeq}
use rtsp_rs.Header.ContentLength
use rtsp_rs.Header.Map.{HeaderMaps, typed_get}
use rtsp_rs.Header.Name
use rtsp_rs.Request.{Request}
use rtsp_rs.Connection.Shutdown.{TimerAnswer, elapsed, pending, at_capacity, timer_error}

-- What is sent back: a response of the service, or one of the constant responses.
pub data Reply (A : Type 0) : Type 0 where
  serviced : A → Reply A
  bad_request continue internal_server_error not_implemented : Reply A

-- The answer of a future of the service to a poll.
pub data FutureAnswer (A : Type 0) : Type 0 where
  done : A → FutureAnswer A
  unfinished failure : FutureAnswer A

-- Of the sender handle and the sender of the shutdown event the handler knows that it has them.
-- `responses` are those that it has sent, with the number that `typed_insert` gives them.
pub record RequestHandler (F A : Type 0) : Type 0 where
  pub continue_timer : Option ℕ
  pub continue_wait_duration : Option ℕ
  pub sender_handle : Bool
  pub serviced_request : Option (CSeq × F)
  pub tx_shutdown_event : Bool
  pub responses : List (CSeq × Reply A)

-- What a poll meets: the time, whether the sender exists, and the answers of futures. The answers of
-- the continue timer come in the order of its polls.
pub record World (F A : Type 0) : Type 0 where
  pub now : ℕ
  pub sender_exists : Bool
  pub future_at : F → FutureAnswer A

-- A method that is ready or not, or that panics; with the handler and the timer answers that are left.
pub data Serviced (F A : Type 0) : Type 0 where
  ready not_ready : List TimerAnswer → RequestHandler F A → Serviced F A
  panicked : Serviced F A

module _ {F A : Type 0} where
  unfoldable pub new : Option ℕ → RequestHandler F A
  new continue_wait_duration = record {
    continue_timer = none;
    continue_wait_duration = continue_wait_duration;
    sender_handle = true;
    serviced_request = none;
    tx_shutdown_event = true;
    responses = [];
  }

  unfoldable pub reset_continue_timer : ℕ → RequestHandler F A → RequestHandler F A
  reset_continue_timer now h = elim h.continue_wait_duration [
    | some duration ↦ record h { continue_timer = some (now + duration) }
    | none ↦ h
  ]

  unfoldable pub send_response : Bool → CSeq → Reply A → RequestHandler F A → RequestHandler F A
  send_response sender_exists cseq reply h =
      if h.sender_handle
      then if sender_exists
        then record h { responses = h.responses ++ ((cseq, reply) ∷ []) }
        else record h { sender_handle = false }
      else h

  unfoldable pub shutdown : RequestHandler F A → RequestHandler F A
  shutdown h = record h {
    continue_timer = none;
    sender_handle = false;
    serviced_request = none;
    tx_shutdown_event = false;
  }

  -- The `while` of `poll_continue_timer`. Timer answers that are missing are `NotReady`. Whether the
  -- result is `Ready` makes no difference to the caller.
  unfoldable pub continue_loop :
      World F A → CSeq → List TimerAnswer → Option ℕ → RequestHandler F A → Serviced F A
  continue_loop world cseq timers none h = not_ready timers h
  continue_loop world cseq [] (some _) h = not_ready [] h
  continue_loop world cseq (pending ∷ timers) (some _) h = not_ready timers h
  continue_loop world cseq (timer_error ∷ timers) (some _) h = panicked
  continue_loop world cseq (at_capacity ∷ timers) (some _) h =
      not_ready timers (record h { continue_timer = none })
  continue_loop world cseq (elapsed ∷ timers) (some _) h =
      let after =
        reset_continue_timer world.now (send_response world.sender_exists cseq continue h) in
      continue_loop world cseq timers after.continue_timer after

  -- The end of a serviced request.
  finish : World F A → CSeq → Reply A → RequestHandler F A → RequestHandler F A
  finish world cseq reply h = record (send_response world.sender_exists cseq reply h) {
    continue_timer = none;
    serviced_request = none;
  }

  unfoldable pub poll_future :
      World F A → CSeq → List TimerAnswer → FutureAnswer A → RequestHandler F A → Serviced F A
  unfolding continue_loop finish
  poll_future world cseq timers (done a) h = ready timers (finish world cseq (serviced a) h)
  poll_future world cseq timers failure h = ready timers (finish world cseq internal_server_error h)
  poll_future world cseq timers unfinished h = continue_loop world cseq timers h.continue_timer h

  unfoldable pub poll_serviced :
      World F A → List TimerAnswer → Option (CSeq × F) → RequestHandler F A → Serviced F A
  unfolding poll_future
  poll_serviced world timers none h = ready timers h
  poll_serviced world timers (some (cseq, f)) h =
      poll_future world cseq timers (world.future_at f) h

  unfoldable pub poll_serviced_request :
      World F A → List TimerAnswer → RequestHandler F A → Serviced F A
  unfolding poll_serviced
  poll_serviced_request world timers h = poll_serviced world timers h.serviced_request h

module _ {Body Map Uri : Type 0} (maps : HeaderMaps Map) where
  -- `headers.contains_key(&HeaderName::ContentType)`.
  abbrev has_content_type : Request Body Map Uri → Bool
  has_content_type request = elim (maps.get_all Name.content_type request.headers) [
    | [] ↦ false
    | _ ↦ true
  ]

  abbrev lacks_content_type : Request Body Map Uri → Bool
  lacks_content_type request =
      elim (typed_get maps Name.content_length ContentLength.decode request.headers) [
        | some n ↦ ltb 0 n && not (has_content_type request)
        | none ↦ false
      ]

module _ {Body Map Uri F A : Type 0} (maps : HeaderMaps Map) (is_rtspu : Uri → Bool)
    (service : Request Body Map Uri → F) where
  unfoldable pub process_request :
      World F A → CSeq → Request Body Map Uri → RequestHandler F A → RequestHandler F A
  process_request world cseq request h =
      if is_rtspu request.uri
      then send_response world.sender_exists cseq not_implemented h
      else if lacks_content_type maps request
      then send_response world.sender_exists cseq bad_request h
      else record (reset_continue_timer world.now h) {
        serviced_request = some (cseq, service request);
      }

  -- A poll that finds `requests` in the channel, and behind them its end or nothing yet; with the
  -- requests that it leaves there. `none` where it panics.
  unfoldable pub poll :
      World F A
      → Bool
      → List (CSeq × Request Body Map Uri)
      → List TimerAnswer
      → RequestHandler F A
      → Option (Bool × List (CSeq × Request Body Map Uri) × RequestHandler F A)
  poll world ended [] timers h = elim (poll_serviced_request world timers h) [
    | ready _ h' ↦ some (if ended then (true, [], shutdown h') else (false, [], h'))
    | not_ready _ h' ↦ some (false, [], h')
    | panicked ↦ none
  ]
  poll world ended ((cseq, request) ∷ requests) timers h =
      elim (poll_serviced_request world timers h) [
        | ready timers' h' ↦
            poll world ended requests timers' (process_request world cseq request h')
        | not_ready _ h' ↦ some (false, (cseq, request) ∷ requests, h')
        | panicked ↦ none
      ]
