-- ===== src/Connection/Forwarding/Order.antt =====
-- rtsp-2/src/protocol/connection/receiver.rs: the order in which requests reach the request handler.
use rtsp_rs.Prelude.{
  ℕ, ◌%◌, ◌^◌, zero, suc, ◌+◌, ◌<◌, ◌≡◌, refl, sym, List, [], ◌∷◌, ◌++◌, Option, none, some,
  Option-cases, inl, inr, length, arith, ltb, Bool-cases, false,
}
use rtsp_rs.Header.CSeq.{CSeq, wrapping_increment, sub}
use rtsp_rs.Header.Map.{HeaderMaps}
use rtsp_rs.Request.{Request}
use rtsp_rs.Connection.{Poll, ready, not_ready, failed, SendAnswer, SendAnswer-cases, has_failed}
use rtsp_rs.Connection.Table.{lookup, length-remove-lt, All, remove-All, lookup-All}
use rtsp_rs.Connection.Forwarding.{
  RequestReceiver, ForwardingReceiver, handed_over, handle_numbered, number_or_default, poll_from,
  new, buffer_request, forward, poll, handle_request, cseq_of, incoming_sequence_number_or_default,
}

-- The keys are those that follow `start` one by one, and `next` follows the last.
abbrev pub Consecutive : {R : Type 0} → CSeq → List (CSeq × R) → CSeq → Type 0
Consecutive start [] next = start ≡ next
Consecutive start ((n, _) ∷ items) next =
    (n ≡ start) × Consecutive (wrapping_increment start) items next

Consecutive-append :
    {R : Type 0} (start n : CSeq) (request : R) (items : List (CSeq × R))
    → Consecutive start items n
    → Consecutive start (items ++ ((n, request) ∷ [])) (wrapping_increment n)
Consecutive-append start n request [] h = (sym h, rw h refl)
Consecutive-append start n request ((m, r) ∷ items) (e, h) =
    (e, Consecutive-append (wrapping_increment start) n request items h)

module _ {R : Type 0} (P : CSeq → R → Type 0) where
  -- The requests handed over have consecutive numbers, and so far they are their own.
  abbrev pub Handed : ForwardingReceiver R → CSeq → Type 0
  Handed f next =
      ((start : CSeq) × Consecutive start f.tx_incoming_request next) × All P f.tx_incoming_request

  All-append :
      (items : List (CSeq × R)) (n : CSeq) (r : R)
      → All P items
      → P n r
      → All P (items ++ ((n, r) ∷ []))
  All-append [] n r h p = (p, tt)
  All-append ((m, s) ∷ items) n r (q, h) p = (q, All-append items n r h p)

  -- The expected number is the one behind those handed over; before the first request, none are.
  abbrev pub Expects : ForwardingReceiver R → Option CSeq → Type 0
  Expects f none = f.tx_incoming_request ≡ []
  Expects f (some n) = Handed f n

  abbrev pub IsOrdered : ForwardingReceiver R → Type 0
  IsOrdered f = Expects f f.incoming_sequence_number × All P f.buffered_requests

  abbrev pub Polled : Option (Poll (Unit {0}) (Unit {0}) × ForwardingReceiver R) → Type 0
  Polled none = ⊥
  Polled (some (failed _, f)) = (next : CSeq) × Handed f next
  Polled (some (_, f)) = IsOrdered f

  forward-Polled :
      (channel : ℕ → SendAnswer) (fuel k : ℕ) (n : CSeq) (f : ForwardingReceiver R)
      → length f.buffered_requests < fuel
      → Handed f n
      → All P f.buffered_requests
      → Polled (forward channel fuel k n f)
  unfolding forward
  forward-Polled channel zero k n f lt h a = absurd (omega arith)
  forward-Polled channel (suc fuel) k n f lt (c, s) a =
      elim (Option-cases (lookup n f.buffered_requests)) [
        | inl missing ↦ rw (Polled, missing) ((c, s), a)
        | inr (request, found) ↦
            let own = lookup-All P n f.buffered_requests a found in
            let rest = remove-All P n f.buffered_requests a in
            let shorter = length-remove-lt n f.buffered_requests found in
            elim (SendAnswer-cases (channel k)) [
              | inl e ↦
                  rw (Polled, found, e)
                    (forward-Polled channel fuel (k + 1) (wrapping_increment n)
                      (handed_over n request f) (omega arith)
                      (
                        (c.0, Consecutive-append c.0 n request f.tx_incoming_request c.1),
                        All-append f.tx_incoming_request n request s own,
                      )
                      rest)
              | inr (inl e) ↦ rw (Polled, found, e) ((c, s), (own, rest))
              | inr (inr e) ↦ rw (Polled, found, e) (n, (c, s))
            ]
      ]

  poll_from-Polled :
      (channel : ℕ → SendAnswer) (number : Option CSeq) (f : ForwardingReceiver R)
      → IsOrdered f
      → Expects f number
      → Polled (poll_from channel number f)
  unfolding poll_from
  poll_from-Polled channel none f h e = h
  poll_from-Polled channel (some n) f h e =
      forward-Polled channel (suc (length f.buffered_requests)) 0 n f (omega arith) e h.1

  pub poll-Polled :
      (channel : ℕ → SendAnswer) (f : ForwardingReceiver R) → IsOrdered f → Polled (poll channel f)
  unfolding poll
  poll-Polled channel f h = poll_from-Polled channel f.incoming_sequence_number f h h.0

  buffer_request-IsOrdered :
      (cseq n : CSeq) (request : R) (f : ForwardingReceiver R)
      → P cseq request
      → IsOrdered f
      → IsOrdered ((buffer_request cseq request (n, f)).1)
  unfolding buffer_request
  buffer_request-IsOrdered cseq n request f p h =
      elim (Bool-cases (ltb (f.request_buffer_size % 2 ^ 32) (sub cseq n))) [
        | inl outside ↦ rw outside h
        | inr inside ↦ elim (Option-cases (lookup cseq f.buffered_requests)) [
          | inl vacant ↦ rw (inside, vacant) (h.0, (p, h.1))
          | inr (other, occupied) ↦ rw (inside, occupied) h
        ]
      ]

  number_or_default-IsOrdered :
      (number : Option CSeq) (cseq : CSeq) (f : ForwardingReceiver R)
      → Expects f number
      → IsOrdered f
      → IsOrdered ((number_or_default number cseq f).1)
  unfolding number_or_default
  number_or_default-IsOrdered (some n) cseq f e h = h
  number_or_default-IsOrdered none cseq f e h = (rw e ((cseq, refl), tt), h.1)

module _ {Body Map Uri : Type 0} (maps : HeaderMaps Map) where
  -- The number in the header of the request.
  abbrev pub IsOwn : CSeq → Request Body Map Uri → Type 0
  IsOwn cseq request = cseq_of maps request ≡ some cseq

  handle_request-IsOrdered :
      (request : Request Body Map Uri) (f : RequestReceiver Body Map Uri)
      → IsOrdered IsOwn f
      → IsOrdered IsOwn ((handle_request maps request f).1)
  unfolding handle_request handle_numbered incoming_sequence_number_or_default
  handle_request-IsOrdered request f h = numbered (cseq_of maps request) refl
    where
      numbered :
          (number : Option CSeq)
          → cseq_of maps request ≡ number
          → IsOrdered IsOwn ((handle_numbered maps number request f).1)
      numbered none e = h
      numbered (some cseq) e =
          buffer_request-IsOrdered IsOwn cseq _ request _ e
            (number_or_default-IsOrdered IsOwn f.incoming_sequence_number cseq f h.0 h)

  -- What happens to a forwarding receiver that is not shut down: a request arrives, or a poll does not
  -- fail.
  pub data Step : RequestReceiver Body Map Uri → RequestReceiver Body Map Uri → Type 0 where
    received :
        (request : Request Body Map Uri) (f : RequestReceiver Body Map Uri)
        → Step f ((handle_request maps request f).1)
    polled :
        (channel : ℕ → SendAnswer) {f g : RequestReceiver Body Map Uri}
        (result : Poll (Unit {0}) (Unit {0}))
        → poll channel f ≡ some (result, g)
        → has_failed result ≡ false
        → Step f g

  pub data Reach : RequestReceiver Body Map Uri → RequestReceiver Body Map Uri → Type 0 where
    here : {f : RequestReceiver Body Map Uri} → Reach f f
    next : {f g h : RequestReceiver Body Map Uri} → Reach f g → Step g h → Reach f h

  Step-IsOrdered :
      {f g : RequestReceiver Body Map Uri} → Step f g → IsOrdered IsOwn f → IsOrdered IsOwn g
  Step-IsOrdered (received request f) h = handle_request-IsOrdered request f h
  Step-IsOrdered (polled channel {f} (ready _) e k) h = rw e at (poll-Polled IsOwn channel f h)
  Step-IsOrdered (polled channel {f} not_ready e k) h = rw e at (poll-Polled IsOwn channel f h)
  Step-IsOrdered (polled channel (failed _) e k) h = ground arith

  Reach-IsOrdered :
      {f g : RequestReceiver Body Map Uri} → Reach f g → IsOrdered IsOwn f → IsOrdered IsOwn g
  Reach-IsOrdered here h = h
  Reach-IsOrdered (next r step) h = Step-IsOrdered step (Reach-IsOrdered r h)

  -- What the handler has been handed is consecutive, and each request under its own number.
  abbrev pub InSequence :
      Option (Poll (Unit {0}) (Unit {0}) × RequestReceiver Body Map Uri) → Type 0
  InSequence none = ⊥
  InSequence (some (_, f)) = (next : CSeq) × Handed IsOwn f next

  Expects-Handed :
      (f : RequestReceiver Body Map Uri) (number : Option CSeq)
      → Expects IsOwn f number
      → (next : CSeq) × Handed IsOwn f next
  Expects-Handed f none e = (0, rw e ((0, refl), tt))
  Expects-Handed f (some n) h = (n, h)

  Polled-InSequence :
      (o : Option (Poll (Unit {0}) (Unit {0}) × RequestReceiver Body Map Uri))
      → Polled IsOwn o
      → InSequence o
  Polled-InSequence none h = h
  Polled-InSequence (some (ready _, f)) h = Expects-Handed f f.incoming_sequence_number h.0
  Polled-InSequence (some (not_ready, f)) h = Expects-Handed f f.incoming_sequence_number h.0
  Polled-InSequence (some (failed _, f)) h = h

  -- Whatever requests have come, and however the channel to the request handler answers, a poll ends,
  -- and the requests that the channel has accepted bear consecutive sequence numbers, which wrap
  -- around at the greatest one.
  pub poll-InSequence :
      (size : ℕ) (f : RequestReceiver Body Map Uri) (channel : ℕ → SendAnswer)
      → Reach (new size) f
      → InSequence (poll channel f)
  unfolding new
  poll-InSequence size f channel r =
      Polled-InSequence (poll channel f)
        (poll-Polled IsOwn channel f (Reach-IsOrdered r (refl, tt)))
