-- ===== src/Connection/Responses/Matching.antt =====
-- rtsp-2/src/protocol/connection/receiver.rs: what the owner of a pending request is told.
use rtsp_rs.Prelude.{
  ◌+◌, ℕ, ◌≡◌, refl, ap, ◌∙◌, List, [], ◌∷◌, ◌++◌, append_assoc, ◌==◌, inl, inr, none, some,
  Option-cases, Bool, true, false, Bool-cases, ==_iff, if◌then◌else◌, arith,
}
use rtsp_rs.Header.CSeq.{CSeq}
use rtsp_rs.Header.Map.{HeaderMaps}
use rtsp_rs.Response.{Response}
use rtsp_rs.Status.{is_continue}
use rtsp_rs.Connection.Table.{
  Table, lookup, remove, lookup-remove, Has, Has-append_left, Has-append_right,
}
use rtsp_rs.Connection.Responses.{
  PendingRequestResponse, continue, no_response, response, add_pending_request, ResponseReceiver,
  send, handle_pending_request_update, handle_continue, handle_final, handle_matched,
  handle_numbered, handle_response, cseq_of, send_none, remove_pending_requests,
}

itself : (c : CSeq) (tx : ℕ) (t : Table ℕ) → lookup c ((c, tx) ∷ t) ≡ some tx
unfolding lookup
itself c tx t = rw ((==_iff c c).1 refl) refl

module _ {Body Map : Type 0} (maps : HeaderMaps Map) (connected : ℕ → Bool) where
  missed :
      (c : CSeq) (answer : Response Body Map) (r : ResponseReceiver Body Map)
      → cseq_of maps answer ≡ some c
      → lookup c r.pending_requests ≡ none
      → handle_response maps connected answer r ≡ r
  unfolding handle_response handle_numbered handle_matched
  missed c answer r own missing =
      ap (λ o. handle_numbered connected o answer r) own
      ∙ ap (λ o. handle_matched connected c answer o r) missing

  matched :
      (c : CSeq) (tx : ℕ) (answer : Response Body Map) (r : ResponseReceiver Body Map)
      → cseq_of maps answer ≡ some c
      → lookup c r.pending_requests ≡ some tx
      → handle_response maps connected answer r ≡ handle_matched connected c answer (some tx) r
  unfolding handle_response handle_numbered
  matched c tx answer r own found =
      ap (λ o. handle_numbered connected o answer r) own
      ∙ ap (λ o. handle_matched connected c answer o r) found

  final :
      (c : CSeq) (tx : ℕ) (answer : Response Body Map) (r : ResponseReceiver Body Map)
      → cseq_of maps answer ≡ some c
      → is_continue answer.status_code ≡ false
      → lookup c r.pending_requests ≡ some tx
      → handle_response maps connected answer r ≡ handle_final connected c tx answer r
  unfolding handle_matched
  final c tx answer r own last found =
      matched c tx answer r own found
      ∙ ap
          (λ b.
            if b then handle_continue connected c tx r else handle_final connected c tx answer r)
          last

  first_continue :
      (c : CSeq) (tx : ℕ) (answer : Response Body Map) (r : ResponseReceiver Body Map)
      → cseq_of maps answer ≡ some c
      → is_continue answer.status_code ≡ true
      → lookup c r.pending_requests ≡ some tx
      → handle_response maps connected answer r ≡ handle_continue connected c tx r
  unfolding handle_matched
  first_continue c tx answer r own starts found =
      matched c tx answer r own found
      ∙ ap
          (λ b.
            if b then handle_continue connected c tx r else handle_final connected c tx answer r)
          starts

  -- A request is answered once: behind a response other than 100 a further response with the same
  -- sequence number changes nothing.
  pub handle_response-handle_response :
      (c : CSeq) (answer further : Response Body Map) (r : ResponseReceiver Body Map)
      → cseq_of maps answer ≡ some c
      → cseq_of maps further ≡ some c
      → is_continue answer.status_code ≡ false
      → handle_response maps connected further (handle_response maps connected answer r)
        ≡ handle_response maps connected answer r
  unfolding handle_final
  handle_response-handle_response c answer further r own same last =
      missed c further (handle_response maps connected answer r) same
        (elim (Option-cases (lookup c r.pending_requests)) [
          | inl missing ↦
              ap (λ s. lookup c s.pending_requests) (missed c answer r own missing) ∙ missing
          | inr (tx, found) ↦
              ap (λ s. lookup c s.pending_requests) (final c tx answer r own last found)
              ∙ lookup-remove c r.pending_requests
        ])

  -- The owner of a request that is added, and that stays connected, is told of a response 100 with a
  -- new channel, and through that channel of the response behind it; then the request no longer waits.
  pub handle_response-add :
      (c : CSeq) (tx : ℕ) (first last : Response Body Map) (r : ResponseReceiver Body Map)
      → cseq_of maps first ≡ some c
      → cseq_of maps last ≡ some c
      → is_continue first.status_code ≡ true
      → is_continue last.status_code ≡ false
      → connected tx ≡ true
      → connected r.next_channel ≡ true
      → let added = handle_pending_request_update (add_pending_request c tx) r in
        let after =
          handle_response maps connected last (handle_response maps connected first added) in
        (after.sent
          ≡ r.sent ++ ((tx, continue r.next_channel) ∷ (r.next_channel, response last) ∷ []))
        × (lookup c after.pending_requests ≡ none)
  unfolding handle_final handle_continue handle_pending_request_update send lookup
  handle_response-add c tx first last r own own' starts ends on on' =
      let added = handle_pending_request_update (add_pending_request c tx) r in
      let moved = handle_continue connected c tx added in
      let under : lookup c added.pending_requests ≡ some tx = itself c tx _ in
      let again : lookup c moved.pending_requests ≡ some r.next_channel =
        rw on (itself c r.next_channel _) in
      let both : handle_response maps connected last (handle_response maps connected first added)
          ≡ handle_final connected c r.next_channel last moved =
        ap (handle_response maps connected last) (first_continue c tx first added own starts under)
        ∙ final c r.next_channel last moved own' ends again in
      (
        ap (λ s. s.sent) both ∙ rw (on, on') (append_assoc r.sent _ _),
        ap (λ s. lookup c s.pending_requests) both ∙ lookup-remove c moved.pending_requests,
      )

  send-Has :
      (x : ℕ) (m : PendingRequestResponse Body Map) (tx : ℕ)
      (message : PendingRequestResponse Body Map)
      (sent : List (ℕ × PendingRequestResponse Body Map))
      → Has x m sent
      → Has x m (send connected tx message sent)
  unfolding send
  send-Has x m tx message sent h = elim (Bool-cases (connected tx)) [
    | inl on ↦ rw (send, on) (Has-append_left x m sent tx message h)
    | inr off ↦ rw (send, off) h
  ]

  send_none-Has :
      (x : ℕ) (m : PendingRequestResponse Body Map) (t : Table ℕ)
      (sent : List (ℕ × PendingRequestResponse Body Map))
      → Has x m sent
      → Has x m (send_none connected t sent)
  unfolding send_none
  send_none-Has x m [] sent h = h
  send_none-Has x m ((c, tx) ∷ t) sent h =
      send_none-Has x m t _ (send-Has x m tx no_response sent h)

  told_none :
      (c tx : ℕ) (t : Table ℕ) (sent : List (ℕ × PendingRequestResponse Body Map))
      → connected tx ≡ true
      → lookup c t ≡ some tx
      → Has tx no_response (send_none connected t sent)
  unfolding send_none send lookup
  told_none c tx [] sent on found = ground arith
  told_none c tx ((k, x) ∷ t) sent on found = elim (Bool-cases (k == c)) [
    | inl hit ↦
        let value : some x ≡ some tx = rw hit at found in
        let same : x ≡ tx = cc in
        send_none-Has tx no_response t _
          (rw (same, on) (Has-append_right tx no_response sent tx refl))
    | inr miss ↦ told_none c tx t _ on (rw miss at found)
  ]

  -- When the pending requests are removed, none is left, and the owner of each that is still connected
  -- is told that no response comes.
  pub remove_pending_requests-Has :
      (c : CSeq) (tx : ℕ) (r : ResponseReceiver Body Map)
      → lookup c r.pending_requests ≡ some tx
      → connected tx ≡ true
      → ((remove_pending_requests connected r).pending_requests ≡ [])
        × Has tx no_response ((remove_pending_requests connected r).sent)
  unfolding remove_pending_requests
  remove_pending_requests-Has c tx r found on =
      (refl, told_none c tx r.pending_requests r.sent on found)

  -- What a response does for the request that waits for it and is still there.
  pub told_final :
      (c : CSeq) (tx : ℕ) (answer : Response Body Map) (r : ResponseReceiver Body Map)
      → cseq_of maps answer ≡ some c
      → is_continue answer.status_code ≡ false
      → lookup c r.pending_requests ≡ some tx
      → connected tx ≡ true
      → handle_response maps connected answer r ≡ record r {
        pending_requests = remove c r.pending_requests;
        sent = r.sent ++ ((tx, response answer) ∷ []);
      }
  unfolding handle_final send
  told_final c tx answer r own last found there =
      final c tx answer r own last found ∙ (rw there refl)

  pub told_continue :
      (c : CSeq) (tx : ℕ) (answer : Response Body Map) (r : ResponseReceiver Body Map)
      → cseq_of maps answer ≡ some c
      → is_continue answer.status_code ≡ true
      → lookup c r.pending_requests ≡ some tx
      → connected tx ≡ true
      → handle_response maps connected answer r ≡ record r {
        pending_requests = (c, r.next_channel) ∷ remove c r.pending_requests;
        next_channel = r.next_channel + 1;
        sent = r.sent ++ ((tx, continue r.next_channel) ∷ []);
      }
  unfolding handle_continue send
  told_continue c tx answer r own starts found there =
      first_continue c tx answer r own starts found ∙ (rw there refl)
