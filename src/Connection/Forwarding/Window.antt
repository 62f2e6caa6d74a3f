-- ===== src/Connection/Forwarding/Window.antt =====
-- rtsp-2/src/protocol/connection/receiver.rs: the window of sequence numbers of `handle_request`.
use mathlib.Core.Path.{subst}
use rtsp_rs.Prelude.{
  ◌≢◌, ℕ, zero, suc, ◌+◌, ◌%◌, ◌^◌, ◌<◌, ◌≡◌, refl, sym, ap, ◌∷◌, ◌==◌, Option, none, some, ◌∙◌,
  Option-cases, inl, inr, Result, ok, length, arith, ltb, true, false,
}
use rtsp_rs.Header.CSeq.{CSeq, wrapping_increment, sub}
use rtsp_rs.Header.Map.{HeaderMaps}
use rtsp_rs.Request.{Request}
use rtsp_rs.Connection.{Poll, ready, SendAnswer, SendAnswer-cases}
use rtsp_rs.Connection.Table.{lookup, length-remove-lt}
use rtsp_rs.Connection.Forwarding.{
  ForwardingReceiver, RequestReceiver, RequestReceiverError, is_full, has_requests_ready,
  handed_over, buffer_request, forward, poll_from, poll, number_or_default, handle_numbered,
  handle_request, cseq_of, incoming_sequence_number_or_default,
}

module _ {R : Type 0} where
  -- A poll that is done leaves no request that is ready.
  abbrev Drained : Option (Poll (Unit {0}) (Unit {0}) × ForwardingReceiver R) → Type 0
  Drained none = ⊥
  Drained (some (ready _, f)) = has_requests_ready f ≡ false
  Drained (some (_, f)) = Unit {0}

  forward-Drained :
      (channel : ℕ → SendAnswer) (fuel k : ℕ) (n : CSeq) (f : ForwardingReceiver R)
      → length f.buffered_requests < fuel
      → Drained (forward channel fuel k n f)
  unfolding forward has_requests_ready
  forward-Drained channel zero k n f lt = absurd (omega arith)
  forward-Drained channel (suc fuel) k n f lt = elim (Option-cases (lookup n f.buffered_requests)) [
    | inl missing ↦ rw (Drained, missing) (rw (has_requests_ready, missing) refl)
    | inr (request, found) ↦
        let shorter = length-remove-lt n f.buffered_requests found in
        elim (SendAnswer-cases (channel k)) [
          | inl e ↦
              rw (Drained, found, e)
                (forward-Drained channel fuel (k + 1) (wrapping_increment n)
                  (handed_over n request f) (omega arith))
          | inr (inl e) ↦ rw (Drained, found, e) tt
          | inr (inr e) ↦ rw (Drained, found, e) tt
        ]
  ]

  forward_missing :
      (channel : ℕ → SendAnswer) (fuel k : ℕ) (n : CSeq) (f : ForwardingReceiver R)
      → lookup n f.buffered_requests ≡ none
      → forward channel (suc fuel) k n f
        ≡ some (ready tt, record f { incoming_sequence_number = some n })
  unfolding forward
  forward_missing channel fuel k n f missing = rw (forward, missing) refl

  -- Nothing is forwarded while the expected request is missing.
  poll_from_missing :
      (channel : ℕ → SendAnswer) (number : Option CSeq) (n : CSeq) (f : ForwardingReceiver R)
      → number ≡ some n
      → f.incoming_sequence_number ≡ number
      → lookup n f.buffered_requests ≡ none
      → poll_from channel number f ≡ some (ready tt, f)
  unfolding poll_from forward
  poll_from_missing channel none n f e k missing = ground arith
  poll_from_missing channel (some m) n f e k missing =
      let same : m ≡ n = cc in
      forward_missing channel _ 0 m f (rw same missing)
      ∙ ap (λ o. some (ready tt, record f { incoming_sequence_number = o })) (sym k)

  not_ready_without :
      (f : ForwardingReceiver R) (n : CSeq)
      → f.incoming_sequence_number ≡ some n
      → lookup n f.buffered_requests ≡ none
      → has_requests_ready f ≡ false
  unfolding has_requests_ready
  not_ready_without f n e missing = rw (has_requests_ready, e, missing) refl

  number_or_default_known :
      (number : Option CSeq) (n cseq : CSeq) (f : ForwardingReceiver R)
      → number ≡ some n
      → number_or_default number cseq f ≡ (n, f)
  unfolding number_or_default
  number_or_default_known none n cseq f e = ground arith
  number_or_default_known (some m) n cseq f e = let same : m ≡ n = cc in ap (λ k. (k, f)) same

  admitted :
      (f : ForwardingReceiver R) (request : R) (n c : CSeq)
      → ltb (f.request_buffer_size % 2 ^ 32) (sub c n) ≡ false
      → lookup c f.buffered_requests ≡ none
      → buffer_request c request (n, f)
        ≡ (ok tt, record f { buffered_requests = (c, request) ∷ f.buffered_requests })
  unfolding buffer_request
  admitted f request n c inside vacant = rw (buffer_request, inside, vacant) refl

  poll_from-Drained :
      (channel : ℕ → SendAnswer) (number : Option CSeq) (f : ForwardingReceiver R)
      → f.incoming_sequence_number ≡ number
      → Drained (poll_from channel number f)
  unfolding poll_from has_requests_ready
  poll_from-Drained channel none f e = rw (has_requests_ready, e) refl
  poll_from-Drained channel (some n) f e =
      forward-Drained channel (suc (length f.buffered_requests)) 0 n f (omega arith)

  Drained-ne-none :
      (o : Option (Poll (Unit {0}) (Unit {0}) × ForwardingReceiver R)) → Drained o → o ≢ none
  Drained-ne-none none d e = d
  Drained-ne-none (some x) d e = ground arith

  -- The fuel of a poll is enough.
  pub poll-ne-none : (channel : ℕ → SendAnswer) (f : ForwardingReceiver R) → poll channel f ≢ none
  unfolding poll
  poll-ne-none channel f =
      Drained-ne-none (poll channel f) (poll_from-Drained channel f.incoming_sequence_number f refl)

apart : (c n : CSeq) → 0 < sub c n → (c == n) ≡ false
unfolding sub
apart c n h = ground arith

module _ {Body Map Uri : Type 0} (maps : HeaderMaps Map) where
  -- A request has been taken, and the receiver is full, has nothing to forward and stays as it is.
  pub record IsStalled (out : Result (Unit {0}) RequestReceiverError × RequestReceiver Body Map Uri)
      : Type 0 where
    pub taken : out.0 ≡ ok tt
    pub full_buffer : is_full (out.1) ≡ true
    pub none_ready : has_requests_ready (out.1) ≡ false
    pub stays : (channel : ℕ → SendAnswer) → poll channel (out.1) ≡ some (ready tt, out.1)

  buffered-IsStalled :
      (f : RequestReceiver Body Map Uri) (request : Request Body Map Uri) (n c : CSeq)
      → f.incoming_sequence_number ≡ some n
      → lookup n f.buffered_requests ≡ none
      → (c == n) ≡ false
      → length f.buffered_requests + 1 ≡ f.request_buffer_size
      → IsStalled (ok tt, record f { buffered_requests = (c, request) ∷ f.buffered_requests })
  unfolding is_full has_requests_ready poll lookup
  buffered-IsStalled f request n c e missing other room =
      let after : RequestReceiver Body Map Uri = record f {
        buffered_requests = (c, request) ∷ f.buffered_requests;
      } in
      let still_missing : lookup n after.buffered_requests ≡ none = rw other missing in
      record {
        taken = refl;
        full_buffer = ground arith;
        none_ready = not_ready_without after n e still_missing;
        stays = λ channel.
            poll_from_missing channel f.incoming_sequence_number n after e refl still_missing;
      }

  -- The window admits the request that is as far ahead of the expected one as the buffer is long. When
  -- it takes the last place of a buffer in which the expected request is missing, the receiver is full
  -- and has nothing to forward, and a poll gives it back as it is.
  pub handle_request-IsStalled :
      (f : RequestReceiver Body Map Uri) (request : Request Body Map Uri) (n c : CSeq)
      → f.incoming_sequence_number ≡ some n
      → cseq_of maps request ≡ some c
      → sub c n ≡ f.request_buffer_size
      → f.request_buffer_size < 2 ^ 32
      → length f.buffered_requests + 1 ≡ f.request_buffer_size
      → lookup n f.buffered_requests ≡ none
      → lookup c f.buffered_requests ≡ none
      → IsStalled (handle_request maps request f)
  unfolding handle_request handle_numbered incoming_sequence_number_or_default
  handle_request-IsStalled f request n c e own ahead small room missing vacant =
      let inside : ltb (f.request_buffer_size % 2 ^ 32) (sub c n) ≡ false = ground arith in
      let other : (c == n) ≡ false = apart c n (omega arith) in
      let taken : handle_request maps request f
          ≡ (ok tt, record f { buffered_requests = (c, request) ∷ f.buffered_requests }) =
        ap (λ o. handle_numbered maps o request f) own
        ∙ ap (buffer_request c request) (number_or_default_known f.incoming_sequence_number n c f e)
        ∙ admitted f request n c inside vacant in
      subst (λ r. IsStalled r) (sym taken) (buffered-IsStalled f request n c e missing other room)
