-- ===== src/Connection/Receiver/Lifecycle.antt =====
-- rtsp-2/src/protocol/connection/receiver.rs: a poll of the whole receiver, and its `expect`s.
use rtsp_rs.Prelude.{
  ℕ, ◌≡◌, ◌≢◌, refl, ap, List, Option, none, some, Bool, true, false, if◌then◌else◌, arith,
}
use rtsp_rs.Header.Map.{HeaderMaps}
use rtsp_rs.Connection.{Poll, ready, not_ready, failed, SendAnswer}
use rtsp_rs.Connection.Forwarding.{RequestReceiver, RequestReceiverError, handle_request}
use rtsp_rs.Connection.Forwarding
use rtsp_rs.Connection.Forwarding.Window.{poll-ne-none}
use rtsp_rs.Connection.Responses.{ResponseReceiver, PendingRequestUpdate, handle_response}
use rtsp_rs.Connection.Responses
use rtsp_rs.Connection.Shutdown.{TimerAnswer, elapsed, pending, at_capacity, timer_error}
use rtsp_rs.Connection.Receiver.{
  Message, ProtocolError, Receiver, World, is_some, is_shutdown, poll_codec_events, poll_timer,
  timer_poll, poll_decoding_timer,
}
use rtsp_rs.Connection.Receiver.Polls.{
  poll_responses, after_receiving, after_forwarding, forward_requests, after_timer, after_stream,
  poll_receiving, poll,
}
use rtsp_rs.Connection.Receiver.Shutdowns.{
  IsWell, shutdown_receiving-IsWell, shutdown_forwarding_receiver-IsWell, settle_responses-IsWell,
}
use rtsp_rs.Connection.Receiver.Reading.{Left, Pumped, poll_stream-Pumped, poll_codec_events-IsWell}

module _ {Body Map Uri : Type 0} where
  poll_responses-IsWell :
      (updates : List PendingRequestUpdate) (ended : Bool) (o : Option (ResponseReceiver Body Map))
      (r : Receiver Body Map Uri)
      → r.response_receiver ≡ o
      → IsWell r
      → IsWell (poll_responses updates ended o r)
  unfolding poll_responses
  poll_responses-IsWell updates ended none r e h = h
  poll_responses-IsWell updates ended (some w) r e h =
      settle_responses-IsWell ((Responses.poll updates ended w).0)
        ((Responses.poll updates ended w).1) r (ap is_some e) h

  -- The panic of a timer that fails with an error that is no lack of capacity.
  abbrev pub TimerFails : {UriError : Type 0} → World Body Map Uri UriError → Type 0
  TimerFails world = (expiry : ℕ) × (world.timer_at expiry ≡ timer_error)

  abbrev Received :
      {UriError : Type 0}
      → World Body Map Uri UriError
      → Option (Poll (Unit {0}) (Unit {0}) × Receiver Body Map Uri)
      → Type 0
  Received world none = TimerFails world
  Received world (some (not_ready, r)) = IsWell r
  Received world (some (ready _, r)) = Unit {0}
  Received world (some (failed _, r)) = Unit {0}

  answered :
      {UriError : Type 0} (world : World Body Map Uri UriError) (expiry : ℕ) (answer : TimerAnswer)
      (r : Receiver Body Map Uri)
      → world.timer_at expiry ≡ answer
      → IsWell r
      → Received world (after_timer (timer_poll answer) r)
  unfolding after_timer timer_poll
  answered world expiry elapsed r e h = tt
  answered world expiry pending r e h = h
  answered world expiry at_capacity r e h = tt
  answered world expiry timer_error r e h = (expiry, e)

  timed :
      {UriError : Type 0} (world : World Body Map Uri UriError) (timer : Option ℕ)
      (r : Receiver Body Map Uri)
      → IsWell r
      → Received world (after_timer (poll_timer world.timer_at timer) r)
  unfolding poll_timer after_timer
  timed world none r h = h
  timed world (some expiry) r h = answered world expiry (world.timer_at expiry) r refl h

  after_stream-Received :
      {UriError : Type 0} (world : World Body Map Uri UriError)
      (result : Poll (Unit {0}) (ProtocolError UriError)) (r : Receiver Body Map Uri)
      → Left result r
      → Received world (after_stream world result r)
  unfolding after_stream poll_decoding_timer
  after_stream-Received world not_ready r h =
      let r' = poll_codec_events world.now world.events r in
      timed world r'.decoding_timer r' (poll_codec_events-IsWell world.now world.events r h)
  after_stream-Received world (ready _) r h = tt
  after_stream-Received world (failed _) r h = tt

  -- What a poll promises of a well-formed receiver.
  abbrev pub Polled :
      {UriError : Type 0}
      → World Body Map Uri UriError
      → Option (Bool × Receiver Body Map Uri)
      → Type 0
  Polled world none = TimerFails world
  Polled world (some (done, r)) = IsWell r × (done ≡ is_shutdown r)

  abbrev Tells : Bool × Receiver Body Map Uri → Type 0
  Tells told = IsWell (told.1) × (told.0 ≡ is_shutdown (told.1))

  either :
      (test : Bool) (p q : Bool × Receiver Body Map Uri)
      → Tells p
      → Tells q
      → Tells (if test then p else q)
  either true p q h k = h
  either false p q h k = k

  after_forwarding-Tells :
      (result : Poll (Unit {0}) (Unit {0})) (f : RequestReceiver Body Map Uri)
      (r : Receiver Body Map Uri)
      → IsWell r
      → Tells (after_forwarding result f r)
  unfolding after_forwarding
  after_forwarding-Tells not_ready f r ((a, s), e) = ((((λ k. refl), s), e), ground arith)
  after_forwarding-Tells (failed _) f r ((a, s), e) = (
    shutdown_forwarding_receiver-IsWell (record r { forwarding_receiver = some f })
        (((λ k. refl), s), e),
    refl,
  )
  after_forwarding-Tells (ready _) f r ((a, s), e) =
      either r.requests_allowed _ _ ((((λ k. refl), s), e), ground arith)
        (
          shutdown_forwarding_receiver-IsWell (record r { forwarding_receiver = some f })
              (((λ k. refl), s), e),
          refl,
        )

  forward_requests-Polled :
      {UriError : Type 0} (world : World Body Map Uri UriError) (channel : ℕ → SendAnswer)
      (o : Option (RequestReceiver Body Map Uri)) (r : Receiver Body Map Uri)
      → IsWell r
      → Polled world (forward_requests channel o r)
  unfolding forward_requests
  forward_requests-Polled world channel none r h = (h, refl)
  forward_requests-Polled world channel (some f) r h =
      forwarded (Forwarding.poll channel f) (poll-ne-none channel f)
    where
      forwarded :
          (o : Option (Poll (Unit {0}) (Unit {0}) × RequestReceiver Body Map Uri))
          → o ≢ none
          → Polled world
              (elim o [ none ↦ none | some (result, f') ↦ some (after_forwarding result f' r) ])
      forwarded none ne = absurd (ne refl)
      forwarded (some (result, f')) ne = after_forwarding-Tells result f' r h

  after_receiving-IsWell :
      {UriError : Type 0} (world : World Body Map Uri UriError)
      (result : Poll (Unit {0}) (Unit {0})) (r : Receiver Body Map Uri)
      → Received world (some (result, r))
      → IsWell (after_receiving result r)
  unfolding after_receiving
  after_receiving-IsWell world not_ready r h = h
  after_receiving-IsWell world (ready _) r h = shutdown_receiving-IsWell r
  after_receiving-IsWell world (failed _) r h = shutdown_receiving-IsWell r

  module _ (maps : HeaderMaps Map) {UriError : Type 0} (world : World Body Map Uri UriError) where
    poll_receiving-Received :
        (r : Receiver Body Map Uri) → IsWell r → Received world (poll_receiving maps world r)
    unfolding poll_receiving
    poll_receiving-Received r h = go _ (
        poll_stream-Pumped maps world.connected world.stream_end world.messages
          (poll_responses world.updates world.updates_ended r.response_receiver r)
          (poll_responses-IsWell world.updates world.updates_ended r.response_receiver r refl h))
      where
        go :
            (o : Option (
              Poll (Unit {0}) (ProtocolError UriError)
              × List (Message Body Map Uri)
              × Receiver Body Map Uri))
            → Pumped o
            → Received world
                (elim o [ none ↦ none | some (result, _, r') ↦ after_stream world result r' ])
        go none k = absurd k
        go (some (result, left, r')) k = after_stream-Received world result r' k

    pub poll-Polled : (r : Receiver Body Map Uri) → IsWell r → Polled world (poll maps world r)
    unfolding poll
    poll-Polled r h = go _ (poll_receiving-Received r h)
      where
        go :
            (o : Option (Poll (Unit {0}) (Unit {0}) × Receiver Body Map Uri))
            → Received world o
            → Polled world (elim o [
              | none ↦ none
              | some (result, r') ↦
                  let after = after_receiving result r' in
                  forward_requests world.channel after.forwarding_receiver after
            ])
        go none k = k
        go (some (result, r')) k =
            forward_requests-Polled world world.channel _ (after_receiving result r')
              (after_receiving-IsWell world result r' k)
