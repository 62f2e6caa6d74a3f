-- ===== src/Connection/Receiver/Reading.antt =====
-- rtsp-2/src/protocol/connection/receiver.rs: the loop of `poll_stream`, and the codec events.
use mathlib.Core.Option
use mathlib.Core.Path.{subst}
use rtsp_rs.Status.{StatusCode}
use rtsp_rs.Prelude.{
  ℕ, ◌≡◌, refl, sym, ◌∙◌, List, [], ◌∷◌, ◌++◌, Option, none, some, inl, inr, Bool, true, false,
  Bool-cases, if◌then◌else◌, Result, ok, err, arith,
}
use rtsp_rs.Header.Map.{HeaderMaps}
use rtsp_rs.Request.{Request}
use rtsp_rs.Connection.{Poll, ready, not_ready, failed}
use rtsp_rs.Connection.Forwarding.{RequestReceiver, RequestReceiverError}
use rtsp_rs.Connection.Responses.{handle_response}
use rtsp_rs.Connection.Receiver.{
  statuses, Message, request, response, ProtocolError, CodecEvent, decoding_started, decoding_ended,
  encoding_ended, encoding_started, StreamEnd, idle, closed, broken, Receiver, is_some, reply,
  handle_request_receiver_error, handle_protocol_error, handle_codec_event, poll_codec_events,
}
use rtsp_rs.Connection.Receiver.Polls.{
  is_forwarding_full, handle_forwarded, handle_message, reply_to_error, end_of_messages, pump,
  poll_stream,
}
use rtsp_rs.Connection.Receiver.Shutdowns.{IsHeld, IsWell}

is_some-map : {A B : Type 0} (f : A → B) (o : Option A) → is_some (Option.map f o) ≡ is_some o
is_some-map f none = refl
is_some-map f (some a) = refl

module _ {Body Map Uri : Type 0} where
  -- In the loop of `poll_stream`.
  abbrev IsReading : Receiver Body Map Uri → Type 0
  IsReading r = IsHeld r × (r.sender_handle ≡ true)

  abbrev ReadingIn : Option (Receiver Body Map Uri) → Type 0
  ReadingIn none = ⊥
  ReadingIn (some r) = IsReading r

  pub poll_codec_events-IsWell :
      (now : ℕ) (events : List CodecEvent) (r : Receiver Body Map Uri)
      → IsWell r
      → IsWell (poll_codec_events now events r)
  unfolding poll_codec_events handle_codec_event
  poll_codec_events-IsWell now [] r h = h
  poll_codec_events-IsWell now (decoding_started ∷ events) r h =
      poll_codec_events-IsWell now events _ h
  poll_codec_events-IsWell now (decoding_ended ∷ events) r h =
      poll_codec_events-IsWell now events _ h
  poll_codec_events-IsWell now (encoding_started ∷ events) r h =
      poll_codec_events-IsWell now events _ h
  poll_codec_events-IsWell now (encoding_ended ∷ events) r h =
      poll_codec_events-IsWell now events _ h

  reply-Reading :
      (sender : Bool) (s : StatusCode) (r : Receiver Body Map Uri)
      → sender ≡ true
      → IsReading r
      → ReadingIn (reply sender s r)
  unfolding reply
  reply-Reading true s r e h = h
  reply-Reading false s r e h = ground arith

  reply_to_error-Reading :
      (result : Result (Unit {0}) RequestReceiverError) (r : Receiver Body Map Uri)
      → IsReading r
      → ReadingIn (reply_to_error (some (result, r)))
  unfolding reply_to_error handle_request_receiver_error
  reply_to_error-Reading (ok _) r h = h
  reply_to_error-Reading (err e) r h = reply-Reading r.sender_handle _ r h.1 h

  handle_protocol_error-IsHeld :
      {UriError : Type 0} (e : ProtocolError UriError) (r : Receiver Body Map Uri)
      → IsHeld r
      → IsHeld (handle_protocol_error e r)
  unfolding handle_protocol_error
  handle_protocol_error-IsHeld e r h = elim (Bool-cases r.sender_handle) [
    | inl on ↦
        subst (λ b. IsHeld (if b then record r { replies = r.replies ++ statuses e } else r))
          (sym on) h
    | inr off ↦
        subst (λ b. IsHeld (if b then record r { replies = r.replies ++ statuses e } else r))
          (sym off) h
  ]

  module _ (maps : HeaderMaps Map) (connected : ℕ → Bool) where
    handle_forwarded-Reading :
        (q : Request Body Map Uri) (o : Option (RequestReceiver Body Map Uri))
        (r : Receiver Body Map Uri)
        → is_some o ≡ true
        → IsReading r
        → ReadingIn (reply_to_error (handle_forwarded maps q o r))
    unfolding handle_forwarded
    handle_forwarded-Reading q none r e h = ground arith
    handle_forwarded-Reading q (some f) r e ((a, s), on) =
        reply_to_error-Reading _ _ (((λ k. refl), s), on)

    handle_message-Reading :
        (message : Message Body Map Uri) (r : Receiver Body Map Uri)
        → IsReading r
        → ReadingIn (reply_to_error (handle_message maps connected message r))
    unfolding handle_message
    handle_message-Reading (request q) r h = elim (Bool-cases r.requests_allowed) [
      | inl on ↦
          subst
            (λ b. ReadingIn (
              reply_to_error
                (if b then handle_forwarded maps q r.forwarding_receiver r else some (ok tt, r))))
            (sym on) (handle_forwarded-Reading q r.forwarding_receiver r (h.0.0 on) h)
      | inr off ↦
          subst
            (λ b. ReadingIn (
              reply_to_error
                (if b then handle_forwarded maps q r.forwarding_receiver r else some (ok tt, r))))
            (sym off) (reply_to_error-Reading (ok tt) r h)
    ]
    handle_message-Reading (response a) r ((f, s), on) =
        let same : is_some (Option.map (handle_response maps connected a) r.response_receiver)
            ≡ is_some r.response_receiver =
          is_some-map (handle_response maps connected a) r.response_receiver in
        reply_to_error-Reading (ok tt) _ ((f, rw same s), on)

  -- What `poll_stream` leaves: while the stream goes on a well-formed receiver, and else one that holds
  -- what it must until the shutdown behind it.
  abbrev pub Left : {E : Type 0} → Poll (Unit {0}) E → Receiver Body Map Uri → Type 0
  Left not_ready r = IsWell r
  Left (ready _) r = IsHeld r
  Left (failed _) r = IsHeld r

  abbrev pub Pumped :
      {E : Type 0}
      → Option (Poll (Unit {0}) E × List (Message Body Map Uri) × Receiver Body Map Uri)
      → Type 0
  Pumped none = ⊥
  Pumped (some (result, _, r)) = Left result r

  each :
      {E : Type 0}
      (f : Receiver Body Map Uri
        → Option (Poll (Unit {0}) E × List (Message Body Map Uri) × Receiver Body Map Uri))
      → ((r : Receiver Body Map Uri) → IsReading r → Pumped (f r))
      → (o : Option (Receiver Body Map Uri)) → ReadingIn o
      → Pumped (elim o [ none ↦ none | some r ↦ f r ])
  each f k none h = h
  each f k (some r) h = k r h

  end_of_messages-Left :
      {UriError : Type 0} (end : StreamEnd UriError) (r : Receiver Body Map Uri)
      → IsReading r
      → Left ((end_of_messages end r).0) ((end_of_messages end r).1)
  unfolding end_of_messages
  end_of_messages-Left idle r (h, on) = (h, sym on)
  end_of_messages-Left closed r (h, on) = h
  end_of_messages-Left (broken e) r (h, on) = handle_protocol_error-IsHeld e r h

  module _ (maps : HeaderMaps Map) {UriError : Type 0} where
    pump-Pumped :
        (connected : ℕ → Bool) (end : StreamEnd UriError) (messages : List (Message Body Map Uri))
        (r : Receiver Body Map Uri)
        → IsReading r
        → Pumped (pump maps connected end messages r)
    unfolding pump
    pump-Pumped connected end [] r h =
        elim (Bool-cases (is_forwarding_full r.forwarding_receiver)) [
          | inl full ↦ rw (Pumped, full) (h.0, sym h.1)
          | inr room ↦ rw (Pumped, room) (end_of_messages-Left end r h)
        ]
    pump-Pumped connected end (message ∷ messages) r h =
        elim (Bool-cases (is_forwarding_full r.forwarding_receiver)) [
          | inl full ↦ rw (Pumped, full) (h.0, sym h.1)
          | inr room ↦
              rw (Pumped, room)
                (each (λ r'. pump maps connected end messages r')
                  (pump-Pumped connected end messages) _
                  (handle_message-Reading maps connected message r h))
        ]

    pub poll_stream-Pumped :
        (connected : ℕ → Bool) (end : StreamEnd UriError) (messages : List (Message Body Map Uri))
        (r : Receiver Body Map Uri)
        → IsWell r
        → Pumped (poll_stream maps connected end messages r)
    unfolding poll_stream
    poll_stream-Pumped connected end messages r (h, e) = elim (Bool-cases r.stream) [
      | inl on ↦
          subst
            (λ b. Pumped (
              if b
              then pump maps connected end messages (record r { stream = false })
              else some (ready tt, messages, r)))
            (sym on)
            (pump-Pumped connected end messages (record r { stream = false }) (h, sym e ∙ on))
      | inr off ↦
          subst
            (λ b. Pumped (
              if b
              then pump maps connected end messages (record r { stream = false })
              else some (ready tt, messages, r)))
            (sym off) h
    ]
