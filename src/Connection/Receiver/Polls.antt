-- ===== src/Connection/Receiver/Polls.antt =====
-- rtsp-2/src/protocol/connection/receiver.rs: `Receiver`, its messages, its stream and its polls.
use mathlib.Core.Option
use rtsp_rs.Prelude.{
  ℕ, List, [], ◌∷◌, Option, none, some, Bool, true, false, if◌then◌else◌, Result, ok, err,
}
use rtsp_rs.Header.Map.{HeaderMaps}
use rtsp_rs.Request.{Request}
use rtsp_rs.Connection.{Poll, ready, not_ready, failed, SendAnswer}
use rtsp_rs.Connection.Forwarding.{
  RequestReceiver, RequestReceiverError, bad_request, cseq_difference_too_large, is_full,
  has_requests_ready, handle_request,
}
use rtsp_rs.Connection.Forwarding
use rtsp_rs.Connection.Responses.{ResponseReceiver, PendingRequestUpdate, handle_response}
use rtsp_rs.Connection.Responses
use rtsp_rs.Connection.Receiver.{
  Message, request, response, ProtocolError, StreamEnd, idle, closed, broken, Receiver, World,
  is_shutdown, shutdown_response_receiver, shutdown_receiving, shutdown_forwarding_receiver,
  handle_request_receiver_error, handle_protocol_error, poll_codec_events, poll_decoding_timer,
}

module _ {Body Map Uri : Type 0} where
  unfoldable pub is_forwarding_full : Option (RequestReceiver Body Map Uri) → Bool
  is_forwarding_full none = false
  is_forwarding_full (some f) = is_full f

  -- The first part of `poll_receiving`: the updates of pending requests.
  unfoldable pub settle_responses :
      Poll (Unit {0}) (Unit {0})
      → ResponseReceiver Body Map
      → Receiver Body Map Uri
      → Receiver Body Map Uri
  settle_responses not_ready w r = record r { response_receiver = some w }
  settle_responses (ready _) w r = shutdown_response_receiver r
  settle_responses (failed _) w r = shutdown_response_receiver r

  unfoldable pub poll_responses :
      List PendingRequestUpdate
      → Bool
      → Option (ResponseReceiver Body Map)
      → Receiver Body Map Uri
      → Receiver Body Map Uri
  unfolding settle_responses
  poll_responses updates ended none r = r
  poll_responses updates ended (some w) r =
      let (result, w') = Responses.poll updates ended w in settle_responses result w' r

  -- `match self.poll_receiving()`.
  unfoldable pub after_receiving :
      Poll (Unit {0}) (Unit {0}) → Receiver Body Map Uri → Receiver Body Map Uri
  after_receiving not_ready r = r
  after_receiving (ready _) r = shutdown_receiving r
  after_receiving (failed _) r = shutdown_receiving r

  -- `match self.forwarding_receiver.as_mut()`: whether all is shut down, and the receiver.
  abbrev pub reported : Receiver Body Map Uri → Bool × Receiver Body Map Uri
  reported r = (is_shutdown r, r)

  unfoldable pub after_forwarding :
      Poll (Unit {0}) (Unit {0})
      → RequestReceiver Body Map Uri
      → Receiver Body Map Uri
      → Bool × Receiver Body Map Uri
  after_forwarding (failed _) f r =
      reported (shutdown_forwarding_receiver (record r { forwarding_receiver = some f }))
  after_forwarding (ready _) f r =
      if r.requests_allowed
      then (false, record r { forwarding_receiver = some f })
      else reported (shutdown_forwarding_receiver (record r { forwarding_receiver = some f }))
  after_forwarding not_ready f r = (false, record r { forwarding_receiver = some f })

  unfoldable pub forward_requests :
      (ℕ → SendAnswer)
      → Option (RequestReceiver Body Map Uri)
      → Receiver Body Map Uri
      → Option (Bool × Receiver Body Map Uri)
  unfolding after_forwarding
  forward_requests channel none r = some (reported r)
  forward_requests channel (some f) r = elim (Forwarding.poll channel f) [
    | none ↦ none
    | some (result, f') ↦ some (after_forwarding result f' r)
  ]

  -- The handling of one message in `poll_stream`, the reply to an error included.
  unfoldable pub reply_to_error :
      Option (Result (Unit {0}) RequestReceiverError × Receiver Body Map Uri)
      → Option (Receiver Body Map Uri)
  reply_to_error none = none
  reply_to_error (some (ok _, r)) = some r
  reply_to_error (some (err e, r)) = handle_request_receiver_error e r

  -- The stream has no more messages now.
  unfoldable pub end_of_messages :
      {UriError : Type 0}
      → StreamEnd UriError
      → Receiver Body Map Uri
      → Poll (Unit {0}) (ProtocolError UriError) × Receiver Body Map Uri
  end_of_messages idle r = (not_ready, record r { stream = true })
  end_of_messages closed r = (ready tt, r)
  end_of_messages (broken e) r = (failed e, handle_protocol_error e r)

  unfoldable pub after_timer :
      Option (Poll (Unit {0}) (Unit {0}))
      → Receiver Body Map Uri
      → Option (Poll (Unit {0}) (Unit {0}) × Receiver Body Map Uri)
  after_timer none r = none
  after_timer (some not_ready) r = some (not_ready, r)
  after_timer (some (ready _)) r = some (ready tt, r)
  after_timer (some (failed _)) r = some (ready tt, r)

  -- The last part: the codec events and the timer, while the stream may go on.
  unfoldable pub after_stream :
      {UriError : Type 0}
      → World Body Map Uri UriError
      → Poll (Unit {0}) (ProtocolError UriError)
      → Receiver Body Map Uri
      → Option (Poll (Unit {0}) (Unit {0}) × Receiver Body Map Uri)
  after_stream world not_ready r =
      let r' = poll_codec_events world.now world.events r in
      after_timer (poll_decoding_timer world.timer_at r') r'
  after_stream world (ready _) r = some (ready tt, r)
  after_stream world (failed _) r = some (ready tt, r)

  module _ (maps : HeaderMaps Map) where
    -- `none` where `expect` panics.
    unfoldable pub handle_forwarded :
        Request Body Map Uri
        → Option (RequestReceiver Body Map Uri)
        → Receiver Body Map Uri
        → Option (Result (Unit {0}) RequestReceiverError × Receiver Body Map Uri)
    handle_forwarded q none r = none
    handle_forwarded q (some f) r =
        let (result, f') = handle_request maps q f in
        some (result, record r { forwarding_receiver = some f' })

    unfoldable pub handle_message :
        (ℕ → Bool)
        → Message Body Map Uri
        → Receiver Body Map Uri
        → Option (Result (Unit {0}) RequestReceiverError × Receiver Body Map Uri)
    unfolding handle_forwarded
    handle_message connected (request q) r =
        if r.requests_allowed then handle_forwarded q r.forwarding_receiver r else some (ok tt, r)
    handle_message connected (response a) r = some (
      ok tt,
      record r {
        response_receiver = Option.map (handle_response maps connected a) r.response_receiver;
      },
    )

    module _ {UriError : Type 0} where
      -- The `loop` of `poll_stream`, which has taken the stream; with the messages that it leaves.
      unfoldable pub pump :
          (ℕ → Bool)
          → StreamEnd UriError
          → List (Message Body Map Uri)
          → Receiver Body Map Uri
          → Option (
              Poll (Unit {0}) (ProtocolError UriError)
              × List (Message Body Map Uri)
              × Receiver Body Map Uri)
      unfolding end_of_messages
      pump connected end [] r = elim (is_forwarding_full r.forwarding_receiver) [
        | true ↦ some (not_ready, [], record r { stream = true })
        | false ↦ let (result, r') = end_of_messages end r in some (result, [], r')
      ]
      pump connected end (message ∷ messages) r = elim (is_forwarding_full r.forwarding_receiver) [
        | true ↦ some (not_ready, message ∷ messages, record r { stream = true })
        | false ↦ elim (reply_to_error (handle_message connected message r)) [
          | none ↦ none
          | some r' ↦ pump connected end messages r'
        ]
      ]

      unfoldable pub poll_stream :
          (ℕ → Bool)
          → StreamEnd UriError
          → List (Message Body Map Uri)
          → Receiver Body Map Uri
          → Option (
              Poll (Unit {0}) (ProtocolError UriError)
              × List (Message Body Map Uri)
              × Receiver Body Map Uri)
      unfolding pump reply_to_error
      poll_stream connected end messages r =
          if r.stream
          then pump connected end messages (record r { stream = false })
          else some (ready tt, messages, r)

      unfoldable pub poll_receiving :
          World Body Map Uri UriError
          → Receiver Body Map Uri
          → Option (Poll (Unit {0}) (Unit {0}) × Receiver Body Map Uri)
      unfolding after_stream after_timer
      poll_receiving world r =
          elim (poll_stream world.connected world.stream_end world.messages
            (poll_responses world.updates world.updates_ended r.response_receiver r)) [
              | none ↦ none
              | some (result, _, r') ↦ after_stream world result r'
            ]

      -- `none` where the code panics, and else whether the poll is done.
      unfoldable pub poll :
          World Body Map Uri UriError
          → Receiver Body Map Uri
          → Option (Bool × Receiver Body Map Uri)
      unfolding after_receiving forward_requests
      poll world r = elim (poll_receiving world r) [
        | none ↦ none
        | some (result, r') ↦
            let after = after_receiving result r' in
            forward_requests world.channel after.forwarding_receiver after
      ]
