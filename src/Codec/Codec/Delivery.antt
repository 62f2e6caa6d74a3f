-- ===== src/Codec/Codec/Delivery.antt =====
-- rtsp-2/src/protocol/codec/mod.rs: two codecs with bytes between them are a queue of messages.
use mathlib.Core.Option
use rtsp_rs.Prelude.{
  ℕ, zero, suc, ◌≡◌, refl, ap, sym, ◌∙◌, List, [], ◌∷◌, ◌++◌, append-nil, append_assoc, Bytes,
  Option, none, some, Result, ok, err, map, length,
}
use rtsp_rs.Header.Map.{HeaderMaps}
use rtsp_rs.Codec.Codec.{
  Codec, Message, request, response, attempted, panicked, CodecEvent, decode, encode,
  encode_message,
}
use rtsp_rs.Codec.Codec.Idle.{idle, IsSendable, arrived, decode-encode_message}
use rtsp_rs.Codec.Decoder.Request.Limits as RequestLimits
use rtsp_rs.Codec.Decoder.Response as ResponseDecoder
use rtsp_rs.Codec.Encoder.{encode_request, encode_response}

module _ {Map Uri UriError Sink : Type 0} (IoError : Type 0) (maps : HeaderMaps Map)
    (uri_try_from : Bytes → Result Uri UriError) (uri_to_string : Uri → Bytes)
    (unbounded_send : CodecEvent → Sink → Option Sink) where
  -- Messages encoded one behind the other.
  unfoldable pub send_all :
      List (Message Map Uri)
      → Codec Map Uri UriError Sink
      → Bytes
      → Codec Map Uri UriError Sink × Bytes
  send_all [] c buffer = (c, buffer)
  send_all (message ∷ messages) c buffer =
      let (c', buffer') =
        encode IoError maps uri_try_from uri_to_string unbounded_send message c buffer in
      send_all messages c' buffer'

  -- So many calls of `decode`, each of which returns a message.
  unfoldable pub receive :
      ℕ
      → Codec Map Uri UriError Sink
      → Bytes
      → Option (List (Message Map Uri) × Codec Map Uri UriError Sink × Bytes)
  receive zero c buffer = some ([], c, buffer)
  receive (suc calls) c buffer =
      elim (decode IoError maps uri_try_from uri_to_string unbounded_send c buffer) [
        | attempted (ok (some message)) c' rest ↦
            Option.map (λ (messages, c'', left). (message ∷ messages, c'', left))
              (receive calls c' rest)
        | attempted (ok none) c' rest ↦ none
        | attempted (err e) c' rest ↦ none
        | panicked ↦ none
      ]

  encode_message-append :
      (message : Message Map Uri) (buffer : Bytes)
      → encode_message IoError maps uri_try_from uri_to_string unbounded_send message buffer
        ≡ buffer ++ encode_message IoError maps uri_try_from uri_to_string unbounded_send message []
  unfolding encode_message encode_request encode_response
  encode_message-append (request r) buffer = refl
  encode_message-append (response r) buffer = refl

  send_all-append :
      (messages : List (Message Map Uri)) (c c' : Codec Map Uri UriError Sink) (buffer : Bytes)
      → (send_all messages c buffer).1 ≡ buffer ++ (send_all messages c' []).1
  unfolding send_all encode
  send_all-append [] c c' buffer = sym (append-nil buffer)
  send_all-append (message ∷ messages) c c' buffer =
      let enc = encode_message IoError maps uri_try_from uri_to_string unbounded_send message in
      let after = λ (c : Codec Map Uri UriError Sink).
        (encode IoError maps uri_try_from uri_to_string unbounded_send message c []).0 in
      send_all-append messages (after c) (after c') (enc buffer)
      ∙ ap (λ l. l ++ (send_all messages (after c') []).1) (encode_message-append message buffer)
      ∙ append_assoc buffer (enc []) _
      ∙ ap (λ l. buffer ++ l) (sym (send_all-append messages (after c') (after c') (enc [])))

  module _ (request_config : RequestLimits.Config) (response_config : ResponseDecoder.Config) where
    abbrev pub AllSendable : List (Message Map Uri) → Type 0
    AllSendable [] = Unit {0}
    AllSendable (message ∷ messages) =
        IsSendable IoError maps uri_try_from uri_to_string unbounded_send request_config
          response_config message
        × AllSendable messages

    abbrev ready : ℕ → ℕ → Option Sink → Codec Map Uri UriError Sink
    ready =
        idle IoError maps uri_try_from uri_to_string unbounded_send request_config response_config

    abbrev arrivals : List (Message Map Uri) → List (Message Map Uri)
    arrivals = map (
        arrived IoError maps uri_try_from uri_to_string unbounded_send request_config
          response_config)

    -- The messages have arrived, and the codec is between two messages again.
    abbrev pub Arrive : List (Message Map Uri) → ℕ → ℕ → Option Sink → Bytes → Bytes → Type 0
    Arrive messages n m tx_event buffer later =
        (n' : ℕ) × (m' : ℕ) × (tx_event' : Option Sink) × (receive (length messages)
            (ready n m tx_event) buffer
          ≡ some (arrivals messages, ready n' m' tx_event', later))

    first_arrives :
        (message : Message Map Uri) (messages : List (Message Map Uri)) (n m n' m' : ℕ)
        (tx_event tx_event' : Option Sink) (buffer rest later : Bytes)
        → decode IoError maps uri_try_from uri_to_string unbounded_send (ready n m tx_event) buffer
          ≡ attempted
              (ok (
                some (
                  arrived IoError maps uri_try_from uri_to_string unbounded_send request_config
                    response_config message)))
              (ready n' m' tx_event')
              rest
        → Arrive messages n' m' tx_event' rest later
        → Arrive (message ∷ messages) n m tx_event buffer later
    unfolding receive
    first_arrives message messages n m n' m' tx tx' buffer rest later e (k, l, t, h) =
        (k, l, t, rw (e, receive) (rw h refl))

    -- Messages that are encoded one behind the other, by any codec, are decoded by a codec that is
    -- between two messages, in the order in which they were encoded: as many calls of `decode` return
    -- the messages, each with the headers that were written for it, and leave the bytes that follow
    -- and a codec between two messages. Each message is within the limits of its decoder, and its
    -- parts are parsed back from what is written for them.
    pub receive-send_all :
        (messages : List (Message Map Uri)) (sender : Codec Map Uri UriError Sink) (n m : ℕ)
        (tx_event : Option Sink) (later : Bytes)
        → AllSendable messages
        → Arrive messages n m tx_event ((send_all messages sender []).1 ++ later) later
    unfolding send_all encode receive
    receive-send_all [] sender n m tx later s = (n, m, tx, refl)
    receive-send_all (message ∷ messages) sender n m tx later (s, rest) =
        let c =
          (encode IoError maps uri_try_from uri_to_string unbounded_send message sender []).0 in
        let enc =
          encode_message IoError maps uri_try_from uri_to_string unbounded_send message [] in
        let behind = (send_all messages c []).1 ++ later in
        let regroup : (send_all messages c enc).1 ++ later ≡ enc ++ behind =
          ap (λ l. l ++ later) (send_all-append messages c c enc) ∙ append_assoc enc _ later in
        let here =
          decode-encode_message IoError maps uri_try_from uri_to_string unbounded_send
            request_config response_config n m tx behind message s in
        rw regroup (
          first_arrives message messages n m _ _ tx _ (enc ++ behind) behind later here
            (receive-send_all messages c _ _ _ later rest))
