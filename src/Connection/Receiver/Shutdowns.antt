-- ===== src/Connection/Receiver/Shutdowns.antt =====
-- rtsp-2/src/protocol/connection/receiver.rs: what a receiver has while it runs, and the operations
-- that shut parts of it down.
use rtsp_rs.Prelude.{◌≡◌, true, ◌||◌, arith}
use rtsp_rs.Connection.{Poll, ready, not_ready, failed}
use rtsp_rs.Connection.Responses.{ResponseReceiver}
use rtsp_rs.Connection.Receiver.{
  Receiver, is_some, shutdown_request_receiver, shutdown_response_receiver, shutdown_receiving,
  shutdown_forwarding_receiver,
}
use rtsp_rs.Connection.Receiver.Polls.{settle_responses}

module _ {Body Map Uri : Type 0} where
  -- While requests are allowed there is a forwarding receiver, and there is a sender handle just as
  -- long as requests or responses are received.
  abbrev pub IsHeld : Receiver Body Map Uri → Type 0
  IsHeld r =
      (r.requests_allowed ≡ true → is_some r.forwarding_receiver ≡ true)
      × (r.sender_handle ≡ (r.requests_allowed || is_some r.response_receiver))

  -- Between polls the stream is there as long as the handle is.
  abbrev pub IsWell : Receiver Body Map Uri → Type 0
  IsWell r = IsHeld r × (r.stream ≡ r.sender_handle)

  pub shutdown_receiving-IsWell : (r : Receiver Body Map Uri) → IsWell (shutdown_receiving r)
  unfolding shutdown_receiving shutdown_response_receiver shutdown_request_receiver
  shutdown_receiving-IsWell r = (((λ h. ground arith), ground arith), ground arith)

  pub shutdown_forwarding_receiver-IsWell :
      (r : Receiver Body Map Uri) → IsWell r → IsWell (shutdown_forwarding_receiver r)
  unfolding shutdown_forwarding_receiver shutdown_request_receiver
  shutdown_forwarding_receiver-IsWell r ((a, s), e) =
      (((λ h. ground arith), ground arith), ground arith)

  pub shutdown_response_receiver-IsWell :
      (r : Receiver Body Map Uri) → IsWell r → IsWell (shutdown_response_receiver r)
  unfolding shutdown_response_receiver
  shutdown_response_receiver-IsWell r ((a, s), e) = ((a, ground arith), ground arith)

  pub settle_responses-IsWell :
      (result : Poll (Unit {0}) (Unit {0})) (w : ResponseReceiver Body Map)
      (r : Receiver Body Map Uri)
      → is_some r.response_receiver ≡ true
      → IsWell r
      → IsWell (settle_responses result w r)
  unfolding settle_responses
  settle_responses-IsWell not_ready w r on ((a, s), e) = ((a, ground arith), e)
  settle_responses-IsWell (ready _) w r on h = shutdown_response_receiver-IsWell r h
  settle_responses-IsWell (failed _) w r on h = shutdown_response_receiver-IsWell r h
