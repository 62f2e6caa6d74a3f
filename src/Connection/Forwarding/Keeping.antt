-- ===== src/Connection/Forwarding/Keeping.antt =====
-- rtsp-2/src/protocol/connection/receiver.rs: no request is lost between its acceptance and the request
-- handler.
use rtsp_rs.Prelude.{
  ℕ, ◌∙◌, zero, suc, ◌+◌, ◌%◌, ◌^◌, ◌<◌, ◌≡◌, refl, sym, ◌⊎◌, ◌∷◌, ◌==◌, Option, none, some,
  Option-cases, inl, inr, ok, length, arith, ltb, Bool-cases, ==_iff,
}
use rtsp_rs.Header.CSeq.{CSeq, wrapping_increment, sub}
use rtsp_rs.Header.Map.{HeaderMaps}
use rtsp_rs.Request.{Request}
use rtsp_rs.Connection.{Poll, ready, not_ready, failed, SendAnswer, SendAnswer-cases}
use rtsp_rs.Connection.Table.{
  lookup, length-remove-lt, lookup-remove_other, Has, Has-append_left, Has-append_right,
}
use rtsp_rs.Connection.Forwarding.{
  ForwardingReceiver, RequestReceiver, handed_over, put_back, buffer_request, forward, poll_from,
  poll, number_or_default, handle_numbered, handle_request, cseq_of,
  incoming_sequence_number_or_default,
}
use rtsp_rs.Connection.Forwarding.Order.{Step, received, polled, Reach, here, next}

module _ {R : Type 0} (c : CSeq) (r : R) where
  -- The request is buffered under its number, or has gone to the request handler.
  abbrev pub Kept : ForwardingReceiver R → Type 0
  Kept f = (lookup c f.buffered_requests ≡ some r) ⊎ Has c r f.tx_incoming_request

  abbrev KeptIn : Option (Poll (Unit {0}) (Unit {0}) × ForwardingReceiver R) → Type 0
  KeptIn none = ⊥
  KeptIn (some (failed _, f)) = Unit {0}
  KeptIn (some (_, f)) = Kept f

  handed_over-Kept :
      (n : CSeq) (q : R) (f : ForwardingReceiver R)
      → lookup n f.buffered_requests ≡ some q
      → Kept f
      → Kept (handed_over n q f)
  handed_over-Kept n q f found (inr h) = inr (Has-append_left c r f.tx_incoming_request n q h)
  handed_over-Kept n q f found (inl e) = elim (Bool-cases (n == c)) [
    | inl hit ↦
        let same : n ≡ c = (==_iff n c).0 hit in
        let value : some q ≡ some r = sym found ∙ (rw same e) in
        let same_value : q ≡ r = cc in
        inr (rw same_value (Has-append_right c r f.tx_incoming_request n same))
    | inr miss ↦ inl (lookup-remove_other n c f.buffered_requests miss ∙ e)
  ]

  put_back-Kept :
      (n : CSeq) (q : R) (f : ForwardingReceiver R)
      → lookup n f.buffered_requests ≡ some q
      → Kept f
      → Kept (put_back n q f)
  unfolding lookup
  put_back-Kept n q f found (inr h) = inr h
  put_back-Kept n q f found (inl e) = elim (Bool-cases (n == c)) [
    | inl hit ↦ let same : n ≡ c = (==_iff n c).0 hit in inl (rw hit (sym found ∙ (rw same e)))
    | inr miss ↦ inl (rw miss (lookup-remove_other n c f.buffered_requests miss ∙ e))
  ]

  forward-KeptIn :
      (channel : ℕ → SendAnswer) (fuel k : ℕ) (n : CSeq) (f : ForwardingReceiver R)
      → length f.buffered_requests < fuel
      → Kept f
      → KeptIn (forward channel fuel k n f)
  unfolding forward
  forward-KeptIn channel zero k n f lt h = absurd (omega arith)
  forward-KeptIn channel (suc fuel) k n f lt h =
      elim (Option-cases (lookup n f.buffered_requests)) [
        | inl missing ↦ rw (KeptIn, missing) h
        | inr (request, found) ↦
            let shorter = length-remove-lt n f.buffered_requests found in
            elim (SendAnswer-cases (channel k)) [
              | inl e ↦
                  rw (KeptIn, found, e)
                    (forward-KeptIn channel fuel (k + 1) (wrapping_increment n)
                      (handed_over n request f) (omega arith)
                      (handed_over-Kept n request f found h))
              | inr (inl e) ↦ rw (KeptIn, found, e) (put_back-Kept n request f found h)
              | inr (inr e) ↦ rw (KeptIn, found, e) tt
            ]
      ]

  poll_from-KeptIn :
      (channel : ℕ → SendAnswer) (number : Option CSeq) (f : ForwardingReceiver R)
      → Kept f
      → KeptIn (poll_from channel number f)
  unfolding poll_from
  poll_from-KeptIn channel none f h = h
  poll_from-KeptIn channel (some n) f h =
      forward-KeptIn channel (suc (length f.buffered_requests)) 0 n f (omega arith) h

  buffered-Kept :
      (cseq : CSeq) (q : R) (f : ForwardingReceiver R)
      → lookup cseq f.buffered_requests ≡ none
      → Kept f
      → Kept (record f { buffered_requests = (cseq, q) ∷ f.buffered_requests })
  unfolding lookup
  buffered-Kept cseq q f vacant (inr h) = inr h
  buffered-Kept cseq q f vacant (inl e) = elim (Bool-cases (cseq == c)) [
    | inl hit ↦
        let same : cseq ≡ c = (==_iff cseq c).0 hit in
        let both : none ≡ some r = sym vacant ∙ (rw same e) in ground arith
    | inr miss ↦ inl (rw miss e)
  ]

  buffer_request-Kept :
      (cseq n : CSeq) (q : R) (f : ForwardingReceiver R)
      → Kept f
      → Kept ((buffer_request cseq q (n, f)).1)
  unfolding buffer_request lookup
  buffer_request-Kept cseq n q f h =
      elim (Bool-cases (ltb (f.request_buffer_size % 2 ^ 32) (sub cseq n))) [
        | inl outside ↦ rw outside h
        | inr inside ↦ elim (Option-cases (lookup cseq f.buffered_requests)) [
          | inl vacant ↦ rw (inside, vacant) (buffered-Kept cseq q f vacant h)
          | inr (other, occupied) ↦ rw (inside, occupied) h
        ]
      ]

  -- What is accepted is kept.
  accept-Kept :
      (n : CSeq) (f : ForwardingReceiver R)
      → (buffer_request c r (n, f)).0 ≡ ok tt
      → Kept ((buffer_request c r (n, f)).1)
  unfolding buffer_request lookup
  accept-Kept n f h = elim (Bool-cases (ltb (f.request_buffer_size % 2 ^ 32) (sub c n))) [
    | inl outside ↦ let refused = rw outside at h in ground arith
    | inr inside ↦ elim (Option-cases (lookup c f.buffered_requests)) [
      | inl vacant ↦ rw (inside, vacant) (inl (rw ((==_iff c c).1 refl) refl))
      | inr (other, occupied) ↦ let refused = rw (inside, occupied) at h in ground arith
    ]
  ]

module _ {Body Map Uri : Type 0} (maps : HeaderMaps Map) where
  module _ (c : CSeq) (r : Request Body Map Uri) where
    number_or_default-Kept :
        (number : Option CSeq) (cseq : CSeq) (f : RequestReceiver Body Map Uri)
        → Kept c r f
        → Kept c r ((number_or_default number cseq f).1)
    unfolding number_or_default
    number_or_default-Kept (some n) cseq f h = h
    number_or_default-Kept none cseq f h = h

    handle_numbered-Kept :
        (number : Option CSeq) (q : Request Body Map Uri) (f : RequestReceiver Body Map Uri)
        → Kept c r f
        → Kept c r ((handle_numbered maps number q f).1)
    unfolding handle_numbered incoming_sequence_number_or_default
    handle_numbered-Kept none q f h = h
    handle_numbered-Kept (some cseq) q f h =
        buffer_request-Kept c r cseq _ q _
          (number_or_default-Kept f.incoming_sequence_number cseq f h)

    Step-Kept : {f g : RequestReceiver Body Map Uri} → Step maps f g → Kept c r f → Kept c r g
    unfolding handle_request poll
    Step-Kept (received request f) h = handle_numbered-Kept (cseq_of maps request) request f h
    Step-Kept (polled channel {f} (ready _) e k) h =
        rw e at (poll_from-KeptIn c r channel f.incoming_sequence_number f h)
    Step-Kept (polled channel {f} not_ready e k) h =
        rw e at (poll_from-KeptIn c r channel f.incoming_sequence_number f h)
    Step-Kept (polled channel (failed _) e k) h = ground arith

    Reach-Kept : {f g : RequestReceiver Body Map Uri} → Reach maps f g → Kept c r f → Kept c r g
    Reach-Kept here h = h
    Reach-Kept (next steps step) h = Step-Kept step (Reach-Kept steps h)

    -- A request that has been accepted is buffered under its number or has gone to the request
    -- handler, whatever requests and polls follow, as long as no poll fails.
    pub handle_request-Kept :
        (f g : RequestReceiver Body Map Uri)
        → cseq_of maps r ≡ some c
        → (handle_request maps r f).0 ≡ ok tt
        → Reach maps ((handle_request maps r f).1) g
        → Kept c r g
    unfolding handle_request handle_numbered
    handle_request-Kept f g own taken steps =
        Reach-Kept steps (rw own (accept-Kept c r _ _ (rw own at taken)))
