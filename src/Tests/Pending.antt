-- ===== src/Tests/Pending.antt =====
-- Runs of the future of a request at concrete inputs.
use rtsp_rs.Prelude.{
  false, ◌≡◌, refl, [], ◌∷◌, ◌++◌, ◌==◌, Bytes, bytes, none, some, arith, if◌then◌else◌,
}
use rtsp_rs.Header.CSeq
use rtsp_rs.Header.Map.{Pairs, pair_maps, pairs_get_all}
use rtsp_rs.Header.Name
use rtsp_rs.Header.Numbers
use rtsp_rs.Response.{Response}
use rtsp_rs.Status
use rtsp_rs.Version.{rtsp2_0}
use rtsp_rs.Connection.{ready}
use rtsp_rs.Connection.Responses.{ResponseReceiver, continue, response}
use rtsp_rs.Connection.Shutdown.{pending}
use rtsp_rs.Connection.Pending.{SendRequest, World, returned, received}
use rtsp_rs.Connection.Pending.Exchange.{mailbox, converse, converse-answered}
use rtsp_rs.Connection.Table

abbrev sent_request : SendRequest
sent_request = record {
  max_timer = some 20;
  rx_response = 0;
  sequence_number = 7;
  timeout_duration = some 10;
  timer = some 10;
  updates = [];
  is_closed = false;
  registered = none;
}

abbrev answer_of : Status.StatusCode → Response Bytes Pairs
answer_of status_code = record {
  body = [];
  reason_phrase = bytes "OK";
  headers = (Name.cseq, record { text = bytes "7" }) ∷ [];
  status_code = status_code;
  version = rtsp2_0;
}

abbrev linked : ResponseReceiver Bytes Pairs
linked = record {
  pending_requests = (7, 0) ∷ [];
  rx_pending_request_is_done = false;
  next_channel = 1;
  sent = [];
}

abbrev answering : World Bytes Pairs
answering = record {
  now = 4;
  channel =
      λ k. if k == 0 then received (continue 1) else received (response (answer_of Status.okay));
  timer_at = λ expires. pending;
}

converse-answered_example :
    (s' : SendRequest) × (converse pair_maps 4
        ((answer_of Status.continue ∷ []) ++ (answer_of Status.okay ∷ []))
        linked
        sent_request
      ≡ returned (ready (answer_of Status.okay)) s')
unfolding pair_maps pairs_get_all Name.name_eq CSeq.decode Numbers.parse Table.lookup mailbox
converse-answered_example =
    converse-answered pair_maps 4 7 (answer_of Status.continue ∷ []) (answer_of Status.okay) []
      linked sent_request
      (record { waits = refl; quiet = refl; known = omega arith; fresh = λ k le. refl })
      (refl, refl, tt) refl refl
