-- ===== src/Connection/Responses.antt =====
-- rtsp-2/src/protocol/connection/receiver.rs: `ResponseReceiver`, which matches responses to the
-- requests that wait for them. A oneshot channel is a number; `connected` says of which of them the
-- receiving end still exists.
pub mod Matching
use rtsp_rs.Prelude.{
  ℕ, suc, ◌+◌, List, [], ◌∷◌, ◌++◌, Option, none, some, Bool, true, false, if◌then◌else◌,
}
use rtsp_rs.Header.CSeq.{CSeq}
use rtsp_rs.Header.CSeq
use rtsp_rs.Header.Map.{HeaderMaps, typed_get}
use rtsp_rs.Header.Name
use rtsp_rs.Response.{Response}
use rtsp_rs.Status.{StatusCode, is_continue}
use rtsp_rs.Connection.{Poll, ready, not_ready}
use rtsp_rs.Connection.Table.{Table, lookup, remove}

pub data PendingRequestResponse (Body Map : Type 0) : Type 0 where
  continue : ℕ → PendingRequestResponse Body Map
  no_response : PendingRequestResponse Body Map
  response : Response Body Map → PendingRequestResponse Body Map

pub data PendingRequestUpdate : Type 0 where
  add_pending_request : CSeq → ℕ → PendingRequestUpdate
  remove_pending_request : CSeq → PendingRequestUpdate

-- `next_channel` numbers the channel that is made next, and `sent` is what has been sent through
-- channels whose receiving end existed.
pub record ResponseReceiver (Body Map : Type 0) : Type 0 where
  pub pending_requests : Table ℕ
  pub rx_pending_request_is_done : Bool
  pub next_channel : ℕ
  pub sent : List (ℕ × PendingRequestResponse Body Map)

module _ {Body Map : Type 0} where
  -- `send`: whether it succeeds, and what has then been sent.
  send :
      (ℕ → Bool)
      → ℕ
      → PendingRequestResponse Body Map
      → List (ℕ × PendingRequestResponse Body Map)
      → List (ℕ × PendingRequestResponse Body Map)
  send connected tx message sent = if connected tx then sent ++ ((tx, message) ∷ []) else sent

  unfoldable pub handle_pending_request_update :
      PendingRequestUpdate → ResponseReceiver Body Map → ResponseReceiver Body Map
  handle_pending_request_update (add_pending_request cseq tx) r = record r {
    pending_requests = (cseq, tx) ∷ remove cseq r.pending_requests;
  }
  handle_pending_request_update (remove_pending_request cseq) r = record r {
    pending_requests = remove cseq r.pending_requests;
  }

  -- A response 100 for the request that waits on `tx`.
  handle_continue : (ℕ → Bool) → CSeq → ℕ → ResponseReceiver Body Map → ResponseReceiver Body Map
  unfolding send
  handle_continue connected cseq tx r = record r {
    pending_requests =
        (let rest = remove cseq r.pending_requests in
          if connected tx then (cseq, r.next_channel) ∷ rest else rest);
    next_channel = r.next_channel + 1;
    sent = send connected tx (continue r.next_channel) r.sent;
  }

  -- Any other response for it.
  handle_final :
      (ℕ → Bool)
      → CSeq
      → ℕ
      → Response Body Map
      → ResponseReceiver Body Map
      → ResponseReceiver Body Map
  unfolding send
  handle_final connected cseq tx answer r = record r {
    pending_requests = remove cseq r.pending_requests;
    sent = send connected tx (response answer) r.sent;
  }

  handle_matched :
      (ℕ → Bool)
      → CSeq
      → Response Body Map
      → Option ℕ
      → ResponseReceiver Body Map
      → ResponseReceiver Body Map
  unfolding handle_continue handle_final
  handle_matched connected cseq answer none r = r
  handle_matched connected cseq answer (some tx) r =
      if is_continue answer.status_code
      then handle_continue connected cseq tx r
      else handle_final connected cseq tx answer r

  handle_numbered :
      (ℕ → Bool)
      → Option CSeq
      → Response Body Map
      → ResponseReceiver Body Map
      → ResponseReceiver Body Map
  unfolding handle_matched
  handle_numbered connected none answer r = r
  handle_numbered connected (some cseq) answer r =
      handle_matched connected cseq answer (lookup cseq r.pending_requests) r

  module _ (maps : HeaderMaps Map) where
    abbrev pub cseq_of : Response Body Map → Option CSeq
    cseq_of answer = typed_get maps Name.cseq CSeq.decode answer.headers

    unfoldable pub handle_response :
        (ℕ → Bool) → Response Body Map → ResponseReceiver Body Map → ResponseReceiver Body Map
    unfolding handle_numbered
    handle_response connected answer r = handle_numbered connected (cseq_of answer) answer r

  -- The messages of `remove_pending_requests`.
  send_none :
      (ℕ → Bool)
      → Table ℕ
      → List (ℕ × PendingRequestResponse Body Map)
      → List (ℕ × PendingRequestResponse Body Map)
  unfolding send
  send_none connected [] sent = sent
  send_none connected ((cseq, tx) ∷ t) sent =
      send_none connected t (send connected tx no_response sent)

  unfoldable pub remove_pending_requests :
      (ℕ → Bool) → ResponseReceiver Body Map → ResponseReceiver Body Map
  unfolding send_none
  remove_pending_requests connected r = record r {
    pending_requests = [];
    sent = send_none connected r.pending_requests r.sent;
  }

  unfoldable pub new : ResponseReceiver Body Map
  new = record {
    pending_requests = [];
    rx_pending_request_is_done = false;
    next_channel = 0;
    sent = [];
  }

  -- A poll that finds `updates`, and behind them the end of the stream or nothing yet.
  unfoldable pub poll :
      List PendingRequestUpdate
      → Bool
      → ResponseReceiver Body Map
      → Poll (Unit {0}) (Unit {0}) × ResponseReceiver Body Map
  poll [] false r = (not_ready, r)
  poll [] true r = (ready tt, record r { rx_pending_request_is_done = true })
  poll (update ∷ updates) ended r = poll updates ended (handle_pending_request_update update r)

  unfoldable pub dropped :
      (ℕ → Bool)
      → List PendingRequestUpdate
      → Bool
      → ResponseReceiver Body Map
      → ResponseReceiver Body Map
  dropped connected updates ended r = remove_pending_requests connected ((poll updates ended r).1)
