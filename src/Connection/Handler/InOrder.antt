-- ===== src/Connection/Handler/InOrder.antt =====
-- rtsp-2/src/protocol/connection/handler.rs: each request gets one final response, in order.
use rtsp_rs.Prelude.{
  ◌∙◌, List, [], ◌∷◌, ◌++◌, map, append-nil, append_assoc, ◌≡◌, refl, sym, ap, Option, none, some,
  Bool, true, false, Bool-cases, ◌⊎◌, inl, inr,
}
use rtsp_rs.Header.CSeq.{CSeq}
use rtsp_rs.Header.Map.{HeaderMaps}
use rtsp_rs.Request.{Request}
use rtsp_rs.Connection.Shutdown.{TimerAnswer}
use rtsp_rs.Connection.Handler.{
  Reply, bad_request, not_implemented, RequestHandler, World, Serviced, ready, not_ready, panicked,
  send_response, shutdown, poll_serviced_request, lacks_content_type, process_request, poll,
}
use rtsp_rs.Connection.Handler.Serving.{
  has_timer_error, final_of, finals, ledger, finals-send_response, send_response-sender_handle,
  send_response-serviced_request, reset_continue_timer-SameButTimer, Served,
  poll_serviced_request-Served,
}

module _ {F A : Type 0} where
  Serviced-cases :
      (s : Serviced F A)
      → ((p : List TimerAnswer × RequestHandler F A) × (s ≡ ready p.0 p.1))
        ⊎ ((p : List TimerAnswer × RequestHandler F A) × (s ≡ not_ready p.0 p.1))
        ⊎ (s ≡ panicked)
  Serviced-cases (ready timers h) = inl ((timers, h), refl)
  Serviced-cases (not_ready timers h) = inr (inl ((timers, h), refl))
  Serviced-cases panicked = inr (inr refl)

module _ {Body Map Uri F A : Type 0} where
  -- The numbers `l` of all requests are those of the final responses, of the request in service, and of
  -- the requests left in the channel, in this order. A handler that is done has answered them all.
  abbrev pub Ordered :
      List CSeq
      → List TimerAnswer
      → Option (Bool × List (CSeq × Request Body Map Uri) × RequestHandler F A)
      → Type 0
  Ordered l timers none = has_timer_error timers ≡ true
  Ordered l timers (some (true, left, h)) = (left ≡ []) × (finals h.responses ≡ l)
  Ordered l timers (some (false, left, h)) = ledger h ++ map (λ p. p.0) left ≡ l

module _ {Body Map Uri F A : Type 0} (maps : HeaderMaps Map) (is_rtspu : Uri → Bool)
    (service : Request Body Map Uri → F) (world : World F A)
    (exists : world.sender_exists ≡ true) where
  abbrev Accepted : CSeq → RequestHandler F A → RequestHandler F A → Type 0
  Accepted c h h' = (h'.sender_handle ≡ true) × (ledger h' ≡ finals h.responses ++ (c ∷ []))

  refuse-Accepted :
      (c : CSeq) (reply : Reply A) (h : RequestHandler F A)
      → h.sender_handle ≡ true
      → h.serviced_request ≡ none
      → final_of c reply ≡ c ∷ []
      → Accepted c h (send_response world.sender_exists c reply h)
  refuse-Accepted c reply h connected idle final =
      let sent = send_response world.sender_exists c reply h in
      let nothing : sent.serviced_request ≡ none =
        send_response-serviced_request world.sender_exists c reply h ∙ idle in
      let answered : finals sent.responses ≡ finals h.responses ++ (c ∷ []) =
        finals-send_response world.sender_exists c reply h exists connected
        ∙ ap (λ end. finals h.responses ++ end) final in
      (
        send_response-sender_handle world.sender_exists c reply h exists connected,
        (rw nothing (append-nil (finals sent.responses))) ∙ answered,
      )

  process_request-Accepted :
      (c : CSeq) (request : Request Body Map Uri) (h : RequestHandler F A)
      → h.sender_handle ≡ true
      → h.serviced_request ≡ none
      → Accepted c h (process_request maps is_rtspu service world c request h)
  unfolding process_request
  process_request-Accepted c request h connected idle =
      let reset = reset_continue_timer-SameButTimer world.now h in
      elim (Bool-cases (is_rtspu request.uri)) [
        | inl e ↦ rw e (refuse-Accepted c not_implemented h connected idle refl)
        | inr e ↦ elim (Bool-cases (lacks_content_type maps request)) [
          | inl l ↦ rw (e, l) (refuse-Accepted c bad_request h connected idle refl)
          | inr l ↦
              rw (e, l) (reset.0 ∙ connected, ap (λ replies. finals replies ++ (c ∷ [])) reset.2)
        ]
      ]

  Ordered-of :
      (l l' : List CSeq) (timers timers' : List TimerAnswer)
      (s : Option (Bool × List (CSeq × Request Body Map Uri) × RequestHandler F A))
      → l ≡ l'
      → timers ≡ timers'
      → Ordered l' timers' s
      → Ordered l timers s
  Ordered-of l l' timers timers' s e same o = rw (e, same) o

  -- Let the handler have its sender handle and the sender exist, let `requests` wait in the channel,
  -- and let `l` be the numbers of the final responses sent so far, of the request in service and of
  -- `requests`. After a poll, `l` is again, in the same order, that of the final responses, of the
  -- request in service and of the requests left in the channel; if the poll is done then the channel
  -- is empty and the final responses alone are `l`. So no request is lost, answered twice or
  -- overtaken, however many 100 (Continue) responses are sent. A poll panics only if a continue timer
  -- fails with an error that is no lack of capacity.
  pub poll-Ordered :
      (ended : Bool) (requests : List (CSeq × Request Body Map Uri)) (timers : List TimerAnswer)
      (h : RequestHandler F A)
      → h.sender_handle ≡ true
      → Ordered
          (ledger h ++ map (λ p. p.0) requests)
          timers
          (poll maps is_rtspu service world ended requests timers h)
  unfolding poll shutdown
  poll-Ordered ended [] timers h connected =
      let served = poll_serviced_request-Served world exists timers h connected in
      elim (Serviced-cases (poll_serviced_request world timers h)) [
        | inl ((timers', h'), e) ↦
            let (_, still, idle, answered) = rw (Served, e) at served in
            elim (Bool-cases ended) [
              | inl over ↦
                  rw (Ordered, poll, e, over) (refl, answered ∙ sym (append-nil (ledger h)))
              | inr waits ↦
                  let same : ledger h' ≡ ledger h =
                    rw idle (append-nil (finals h'.responses) ∙ answered) in
                  rw (Ordered, poll, e, waits) (ap (λ l. l ++ []) same)
            ]
        | inr (inl ((timers', h'), e)) ↦
            let same = rw (Served, e) at served in rw (Ordered, poll, e) (rw same refl)
        | inr (inr e) ↦ let failed = rw (Served, e) at served in rw (Ordered, poll, e) failed
      ]
  poll-Ordered ended ((c, request) ∷ requests) timers h connected =
      let served = poll_serviced_request-Served world exists timers h connected in
      elim (Serviced-cases (poll_serviced_request world timers h)) [
        | inl ((timers', h'), e) ↦
            let (same, still, idle, answered) = rw (Served, e) at served in
            let after = process_request maps is_rtspu service world c request h' in
            let step = process_request-Accepted c request h' still idle in
            let grown : ledger h ++ (c ∷ map (λ p. p.0) requests)
                ≡ ledger after ++ map (λ p. p.0) requests =
              rw (step.1, answered)
                (sym (append_assoc (ledger h) (c ∷ []) (map (λ p. p.0) requests))) in
            rw (Ordered, poll, e)
              (Ordered-of _ _ timers timers' _ grown (sym same)
                (poll-Ordered ended requests timers' after step.0))
        | inr (inl ((timers', h'), e)) ↦
            let same = rw (Served, e) at served in rw (Ordered, poll, e) (rw same refl)
        | inr (inr e) ↦ let failed = rw (Served, e) at served in rw (Ordered, poll, e) failed
      ]
