-- ===== src/Connection/Pending/Exchange.antt =====
-- rtsp-2/src/protocol/connection/pending.rs and receiver.rs: the response receiver and the future of a
-- request, with their channels between them.
use rtsp_rs.Prelude.{
  ℕ, ◌+◌, ◌≤◌, ◌<◌, ◌≡◌, refl, ap, ◌∙◌, Bool, true, false, List, [], ◌∷◌, ◌++◌, ◌==◌, Option, none,
  some, ==_iff, if◌then◌else◌, arith,
}
use rtsp_rs.Header.CSeq.{CSeq}
use rtsp_rs.Header.Map.{HeaderMaps}
use rtsp_rs.Response.{Response}
use rtsp_rs.Status.{is_continue}
use rtsp_rs.Connection.{ready, not_ready, failed}
use rtsp_rs.Connection.Table.{lookup, remove}
use rtsp_rs.Connection.Responses.{
  PendingRequestResponse, continue, response, ResponseReceiver, handle_response, cseq_of,
}
use rtsp_rs.Connection.Responses.Matching.{told_final, told_continue}
use rtsp_rs.Connection.Shutdown.{pending}
use rtsp_rs.Connection.Pending.Outcomes.{IsRunning}
use rtsp_rs.Connection.Pending.Polls.{running_timers, poll_of}
use rtsp_rs.Connection.Pending.{
  SendRequest, World, Run, returned, panicked, ChannelAnswer, received, waiting, expiry, answered,
  polled, poll,
}

-- The future of the request is there, and with it the receiving end of its channel.
all_connected : ℕ → Bool
all_connected tx = true

module _ {Body Map : Type 0} where
  -- The message that waits in a oneshot channel.
  unfoldable pub mailbox : List (ℕ × PendingRequestResponse Body Map) → ℕ → ChannelAnswer Body Map
  mailbox [] k = waiting
  mailbox ((c, m) ∷ sent) k = if c == k then received m else mailbox sent k

  mailbox-send :
      (sent : List (ℕ × PendingRequestResponse Body Map)) (k : ℕ)
      (m : PendingRequestResponse Body Map)
      → mailbox sent k ≡ waiting
      → mailbox (sent ++ ((k, m) ∷ [])) k ≡ received m
  unfolding mailbox
  mailbox-send [] k m h = rw ((==_iff k k).1 refl) refl
  mailbox-send ((c, n) ∷ sent) k m h = ground (arith, mailbox-send sent k m)

  mailbox-send_other :
      (sent : List (ℕ × PendingRequestResponse Body Map)) (c k : ℕ)
      (m : PendingRequestResponse Body Map)
      → c < k
      → mailbox (sent ++ ((c, m) ∷ [])) k ≡ mailbox sent k
  unfolding mailbox
  mailbox-send_other [] c k m h = ground arith
  mailbox-send_other ((d, n) ∷ sent) c k m h = ground (arith, mailbox-send_other sent c k m h)

  -- What the future meets behind the response receiver, with no timer that has expired.
  abbrev pub meets : ℕ → ResponseReceiver Body Map → World Body Map
  meets now r = record { now = now; channel = mailbox r.sent; timer_at = λ expires. pending }

  -- Its timers are running.
  no_expiry :
      (now : ℕ) (r : ResponseReceiver Body Map) (timer : Option ℕ) → IsRunning (meets now r) timer
  no_expiry now r none = tt
  no_expiry now r (some expires) = refl

  module _ (maps : HeaderMaps Map) (now : ℕ) where
    -- What follows a poll that has returned nothing yet.
    abbrev still :
        (SendRequest → Run (Response Body Map)) → Run (Response Body Map) → Run (Response Body Map)
    still next (returned not_ready s') = next s'
    still next (returned (ready a) s') = returned (ready a) s'
    still next (returned (failed e) s') = returned (failed e) s'
    still next panicked = panicked

    -- A response comes to the receiver, and the future is polled; until it is done.
    unfoldable pub converse :
        List (Response Body Map) → ResponseReceiver Body Map → SendRequest → Run (Response Body Map)
    unfolding all_connected
    converse [] r s = returned not_ready s
    converse (answer ∷ answers) r s =
        let r' = handle_response maps all_connected answer r in
        still (converse answers r') (poll (meets now r') s)

    -- The request waits in the receiver under its number, with the channel that the future has, and
    -- channels that are still to be made are empty.
    pub record IsLinked (c : CSeq) (r : ResponseReceiver Body Map) (s : SendRequest) : Type 0 where
      pub waits : lookup c r.pending_requests ≡ some s.rx_response
      pub quiet : mailbox r.sent s.rx_response ≡ waiting
      pub known : s.rx_response < r.next_channel
      pub fresh : (k : ℕ) → r.next_channel ≤ k → mailbox r.sent k ≡ waiting

    -- Responses 100 (Continue) to the request.
    abbrev pub AllContinue : CSeq → List (Response Body Map) → Type 0
    AllContinue c [] = Unit {0}
    AllContinue c (answer ∷ answers) =
        (cseq_of maps answer ≡ some c)
        × (is_continue answer.status_code ≡ true)
        × AllContinue c answers

    module _ (c : CSeq) (r : ResponseReceiver Body Map) (s : SendRequest) (l : IsLinked c r s) where
      -- The receiver and the future behind a response 100.
      abbrev continued : ResponseReceiver Body Map
      continued = record r {
        pending_requests = (c, r.next_channel) ∷ remove c r.pending_requests;
        next_channel = r.next_channel + 1;
        sent = r.sent ++ ((s.rx_response, continue r.next_channel) ∷ []);
      }

      abbrev waits_again : SendRequest
      waits_again = record s { rx_response = r.next_channel; timer = expiry now s.timeout_duration }

      continued-IsLinked : IsLinked c continued waits_again
      continued-IsLinked = record {
        waits = unfold lookup in rw ((==_iff c c).1 refl) refl;
        quiet =
            mailbox-send_other r.sent s.rx_response r.next_channel _ l.known
            ∙ l.fresh r.next_channel (omega arith);
        known = omega arith;
        fresh = λ k le.
            mailbox-send_other r.sent s.rx_response k _ (omega (arith, l.known))
            ∙ l.fresh k (omega arith);
      }

      converse-continue :
          (answer : Response Body Map) (answers : List (Response Body Map))
          → cseq_of maps answer ≡ some c
          → is_continue answer.status_code ≡ true
          → converse (answer ∷ answers) r s ≡ converse answers continued waits_again
      unfolding converse
      converse-continue answer answers own starts =
          let told =
            told_continue maps all_connected c s.rx_response answer r own starts l.waits refl in
          let polls : poll (meets now continued) s ≡ returned not_ready waits_again =
            poll_of (meets now continued) s _ (mailbox-send r.sent s.rx_response _ l.quiet)
            ∙ unfold polled answered in
              running_timers (meets now continued) waits_again _ _ refl refl
                (no_expiry now continued _) (no_expiry now continued _) in
          ap (λ r'. still (converse answers r') (poll (meets now r') s)) told
          ∙ ap (still (converse answers continued)) polls

      converse-final :
          (answer : Response Body Map) (answers : List (Response Body Map))
          → cseq_of maps answer ≡ some c
          → is_continue answer.status_code ≡ false
          → converse (answer ∷ answers) r s ≡ returned (ready answer) s
      unfolding converse
      converse-final answer answers own last =
          let told = told_final maps all_connected c s.rx_response answer r own last l.waits refl in
          let r' : ResponseReceiver Body Map = record r {
            pending_requests = remove c r.pending_requests;
            sent = r.sent ++ ((s.rx_response, response answer) ∷ []);
          } in
          let polls : poll (meets now r') s ≡ returned (ready answer) s =
            poll_of (meets now r') s _ (mailbox-send r.sent s.rx_response _ l.quiet)
            ∙ unfold polled answered in refl in
          ap (λ r'. still (converse answers r') (poll (meets now r') s)) told
          ∙ ap (still (converse answers r')) polls

    -- A request that waits in the response receiver is answered: behind any number of responses 100
    -- (Continue) with its sequence number, each of which gives it a new channel, the first other
    -- response with its number is what its future returns, if the future is polled behind each
    -- response and no timer expires.
    pub converse-answered :
        (c : CSeq) (continues : List (Response Body Map)) (answer : Response Body Map)
        (further : List (Response Body Map)) (r : ResponseReceiver Body Map) (s : SendRequest)
        → IsLinked c r s
        → AllContinue c continues
        → cseq_of maps answer ≡ some c
        → is_continue answer.status_code ≡ false
        → (s' : SendRequest) × (converse (continues ++ (answer ∷ further)) r s
            ≡ returned (ready answer) s')
    converse-answered c [] answer further r s l cs own last =
        (s, converse-final c r s l answer further own last)
    converse-answered c (first ∷ continues) answer further r s l (numbered, starts, cs) own last =
        let (s', e) =
          converse-answered c continues answer further (continued c r s l) (waits_again c r s l)
            (continued-IsLinked c r s l) cs own last in
        (s', converse-continue c r s l first (continues ++ (answer ∷ further)) numbered starts ∙ e)
