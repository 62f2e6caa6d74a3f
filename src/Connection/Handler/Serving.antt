-- ===== src/Connection/Handler/Serving.antt =====
-- rtsp-2/src/protocol/connection/handler.rs: what servicing does to the requests that have reached it.
use rtsp_rs.Prelude.{
  ℕ, ◌∙◌, List, [], ◌∷◌, ◌++◌, append-nil, append_assoc, ◌≡◌, refl, sym, ap, Option, none, some,
  Bool, true, false, Bool-cases, Option-cases, inl, inr,
}
use rtsp_rs.Header.CSeq.{CSeq}
use rtsp_rs.Connection.Shutdown.{TimerAnswer, elapsed, pending, at_capacity, timer_error}
use rtsp_rs.Connection.Handler.{
  Reply, continue, serviced, internal_server_error, FutureAnswer, done, unfinished, failure,
  RequestHandler, World, Serviced, ready, not_ready, panicked, reset_continue_timer, send_response,
  continue_loop, finish, poll_future, poll_serviced, poll_serviced_request,
}

abbrev pub has_timer_error : List TimerAnswer → Bool
has_timer_error [] = false
has_timer_error (timer_error ∷ _) = true
has_timer_error (_ ∷ timers) = has_timer_error timers

abbrev pub current : {F : Type 0} → Option (CSeq × F) → List CSeq
current none = []
current (some (c, _)) = c ∷ []

module _ {A : Type 0} where
  abbrev pub final_of : CSeq → Reply A → List CSeq
  final_of c continue = []
  final_of c _ = c ∷ []

  -- The numbers of the final responses: those that are not 100 (Continue).
  abbrev pub finals : List (CSeq × Reply A) → List CSeq
  finals [] = []
  finals ((c, reply) ∷ replies) = final_of c reply ++ finals replies

  finals-snoc :
      (replies : List (CSeq × Reply A)) (c : CSeq) (reply : Reply A)
      → finals (replies ++ ((c, reply) ∷ [])) ≡ finals replies ++ final_of c reply
  finals-snoc [] c reply = append-nil (final_of c reply)
  finals-snoc ((d, other) ∷ replies) c reply =
      ap (λ rest. final_of d other ++ rest) (finals-snoc replies c reply)
      ∙ sym (append_assoc (final_of d other) (finals replies) (final_of c reply))

module _ {F A : Type 0} where
  -- The numbers of the requests that have reached the handler: those answered, then the one in service.
  abbrev pub ledger : RequestHandler F A → List CSeq
  ledger h = finals h.responses ++ current h.serviced_request

  pub finals-send_response :
      (sender_exists : Bool) (c : CSeq) (reply : Reply A) (h : RequestHandler F A)
      → sender_exists ≡ true
      → h.sender_handle ≡ true
      → finals (send_response sender_exists c reply h).responses
        ≡ finals h.responses ++ final_of c reply
  unfolding send_response
  finals-send_response sender_exists c reply h exists connected =
      rw (exists, connected) (finals-snoc h.responses c reply)

  pub send_response-sender_handle :
      (sender_exists : Bool) (c : CSeq) (reply : Reply A) (h : RequestHandler F A)
      → sender_exists ≡ true
      → h.sender_handle ≡ true
      → (send_response sender_exists c reply h).sender_handle ≡ true
  unfolding send_response
  send_response-sender_handle sender_exists c reply h exists connected = rw (exists, connected) refl

  pub send_response-serviced_request :
      (sender_exists : Bool) (c : CSeq) (reply : Reply A) (h : RequestHandler F A)
      → (send_response sender_exists c reply h).serviced_request ≡ h.serviced_request
  unfolding send_response
  send_response-serviced_request false c reply h = elim (Bool-cases h.sender_handle) [
    | inl e ↦ rw e refl
    | inr e ↦ rw e refl
  ]
  send_response-serviced_request true c reply h = elim (Bool-cases h.sender_handle) [
    | inl e ↦ rw e refl
    | inr e ↦ rw e refl
  ]

  -- A reset of the timer changes nothing else.
  abbrev pub SameButTimer : RequestHandler F A → RequestHandler F A → Type 0
  SameButTimer g h =
      (g.sender_handle ≡ h.sender_handle)
      × (g.serviced_request ≡ h.serviced_request)
      × (g.responses ≡ h.responses)

  pub reset_continue_timer-SameButTimer :
      (now : ℕ) (h : RequestHandler F A) → SameButTimer (reset_continue_timer now h) h
  unfolding reset_continue_timer
  reset_continue_timer-SameButTimer now h = elim (Option-cases h.continue_wait_duration) [
    | inl e ↦ rw e (refl, refl, refl)
    | inr (d, e) ↦ rw e (refl, refl, refl)
  ]

  module _ (world : World F A) (exists : world.sender_exists ≡ true) where
    -- What a step makes of a connected handler whose ledger it is: all of it is answered if it is
    -- ready, and it panics only at an error of a timer.
    abbrev pub Served : List CSeq → List TimerAnswer → Serviced F A → Type 0
    Served l timers (ready timers' h) =
        (timers' ≡ timers)
        × (h.sender_handle ≡ true)
        × (h.serviced_request ≡ none)
        × (finals h.responses ≡ l)
    Served l timers (not_ready _ h) = ledger h ≡ l
    Served l timers panicked = has_timer_error timers ≡ true

    abbrev Waiting : List CSeq → List TimerAnswer → Serviced F A → Type 0
    Waiting l timers (ready _ _) = ⊥
    Waiting l timers s = Served l timers s

    Waiting-Served :
        (l : List CSeq) (timers : List TimerAnswer) (s : Serviced F A)
        → Waiting l timers s
        → Served l timers s
    Waiting-Served l timers (ready _ _) w = elim w [ ]
    Waiting-Served l timers (not_ready _ _) w = w
    Waiting-Served l timers panicked w = w

    Waiting-elapsed :
        (l : List CSeq) (timers : List TimerAnswer) (s : Serviced F A)
        → Waiting l timers s
        → Waiting l (elapsed ∷ timers) s
    Waiting-elapsed l timers (ready _ _) w = w
    Waiting-elapsed l timers (not_ready _ _) w = w
    Waiting-elapsed l timers panicked w = w

    continue_loop-Waiting :
        (c : CSeq) (l : List CSeq) (timers : List TimerAnswer) (timer : Option ℕ)
        (h : RequestHandler F A)
        → h.sender_handle ≡ true
        → ledger h ≡ l
        → Waiting l timers (continue_loop world c timers timer h)
    unfolding continue_loop
    continue_loop-Waiting c l [] none h connected e = e
    continue_loop-Waiting c l (pending ∷ _) none h connected e = e
    continue_loop-Waiting c l (at_capacity ∷ _) none h connected e = e
    continue_loop-Waiting c l (timer_error ∷ _) none h connected e = e
    continue_loop-Waiting c l (elapsed ∷ _) none h connected e = e
    continue_loop-Waiting c l [] (some _) h connected e = e
    continue_loop-Waiting c l (pending ∷ timers) (some _) h connected e = e
    continue_loop-Waiting c l (at_capacity ∷ timers) (some _) h connected e = e
    continue_loop-Waiting c l (timer_error ∷ timers) (some _) h connected e = refl
    continue_loop-Waiting c l (elapsed ∷ timers) (some _) h connected e =
        let sent = send_response world.sender_exists c continue h in
        let reset = reset_continue_timer-SameButTimer world.now sent in
        let after = reset_continue_timer world.now sent in
        let handle : after.sender_handle ≡ true =
          reset.0 ∙ send_response-sender_handle world.sender_exists c continue h exists connected in
        let answered : finals after.responses ≡ finals h.responses =
          ap finals reset.2
          ∙ finals-send_response world.sender_exists c continue h exists connected
          ∙ append-nil (finals h.responses) in
        let in_service : after.serviced_request ≡ h.serviced_request =
          reset.1 ∙ send_response-serviced_request world.sender_exists c continue h in
        let same : ledger after ≡ ledger h = rw (answered, in_service) refl in
        Waiting-elapsed l timers _
          (continue_loop-Waiting c l timers after.continue_timer after handle (same ∙ e))

    finish-Served :
        (c : CSeq) (f : F) (timers : List TimerAnswer) (reply : Reply A) (h : RequestHandler F A)
        → h.sender_handle ≡ true
        → h.serviced_request ≡ some (c, f)
        → final_of c reply ≡ c ∷ []
        → Served (ledger h) timers (ready timers (finish world c reply h))
    unfolding finish
    finish-Served c f timers reply h connected busy final = (
      refl,
      send_response-sender_handle world.sender_exists c reply h exists connected,
      refl,
      finals-send_response world.sender_exists c reply h exists connected ∙ (rw (final, busy) refl),
    )

    poll_future-Served :
        (c : CSeq) (f : F) (timers : List TimerAnswer) (answer : FutureAnswer A)
        (h : RequestHandler F A)
        → h.sender_handle ≡ true
        → h.serviced_request ≡ some (c, f)
        → Served (ledger h) timers (poll_future world c timers answer h)
    unfolding poll_future
    poll_future-Served c f timers (done a) h connected busy =
        finish-Served c f timers (serviced a) h connected busy refl
    poll_future-Served c f timers failure h connected busy =
        finish-Served c f timers internal_server_error h connected busy refl
    poll_future-Served c f timers unfinished h connected busy =
        Waiting-Served (ledger h) timers _
          (continue_loop-Waiting c (ledger h) timers h.continue_timer h connected refl)

    poll_serviced-Served :
        (timers : List TimerAnswer) (request : Option (CSeq × F)) (h : RequestHandler F A)
        → h.sender_handle ≡ true
        → h.serviced_request ≡ request
        → Served (ledger h) timers (poll_serviced world timers request h)
    unfolding poll_serviced
    poll_serviced-Served timers none h connected idle =
        let answered : finals h.responses ≡ ledger h =
          rw idle (sym (append-nil (finals h.responses))) in
        (refl, connected, idle, answered)
    poll_serviced-Served timers (some (c, f)) h connected busy =
        poll_future-Served c f timers (world.future_at f) h connected busy

    pub poll_serviced_request-Served :
        (timers : List TimerAnswer) (h : RequestHandler F A)
        → h.sender_handle ≡ true
        → Served (ledger h) timers (poll_serviced_request world timers h)
    unfolding poll_serviced_request
    poll_serviced_request-Served timers h connected =
        poll_serviced-Served timers h.serviced_request h connected refl
