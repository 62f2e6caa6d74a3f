-- ===== src/Tests/Connection.antt =====
-- Runs of the model of rtsp-2/src/protocol/connection at concrete inputs.
use rtsp_rs.Prelude.{true, ◌++◌, ◌≡◌, refl, Bytes, bytes, [], ◌∷◌, some, none, false, arith}
use rtsp_rs.Version
use rtsp_rs.Tests.Requests.{TestRequest, numbered}
use rtsp_rs.Header.CSeq
use rtsp_rs.Header.Name
use rtsp_rs.Header.Numbers
use rtsp_rs.Header.Map.{Pairs, pair_maps, pairs_get_all}
use rtsp_rs.Connection.{accepted}
use rtsp_rs.Connection.Table
use rtsp_rs.Connection.Forwarding.{RequestReceiver, new, handle_request, poll}
use rtsp_rs.Connection.Forwarding.Order.{here, next, received, InSequence, poll-InSequence}
use rtsp_rs.Connection.Forwarding.Keeping.{Kept, handle_request-Kept}
use rtsp_rs.Connection.Forwarding.Window.{IsStalled, handle_request-IsStalled}
use rtsp_rs.Connection.Shutdown.{
  World, initiated, graceful, elapsed, pending, state, shutdown, force_shutdown,
}
use rtsp_rs.Connection.Shutdown
use rtsp_rs.Connection.Shutdown.Once.{
  IsWell, Settled, rank, poll-Settled, force_shutdown-shutdown_events,
}
use rtsp_rs.Status
use rtsp_rs.Response.{Response}
use rtsp_rs.Connection.Receiver
use rtsp_rs.Connection.Receiver.Polls
use rtsp_rs.Connection.Responses.{
  ResponseReceiver, handle_response, handle_pending_request_update, add_pending_request,
  remove_pending_requests,
}
use rtsp_rs.Connection.Responses
use rtsp_rs.Connection.Responses.Matching.{
  handle_response-handle_response, handle_response-add, remove_pending_requests-Has,
}

abbrev TestReceiver : Type 0
TestReceiver = RequestReceiver Bytes Pairs Bytes

abbrev after : TestRequest → TestReceiver → TestReceiver
after request f = (handle_request pair_maps request f).1

poll-InSequence_example :
    InSequence pair_maps
      (poll (λ k. accepted) (after (numbered (bytes "8")) (after (numbered (bytes "7")) (new 4))))
poll-InSequence_example =
    poll-InSequence pair_maps 4
      (after (numbered (bytes "8")) (after (numbered (bytes "7")) (new 4))) (λ k. accepted)
      (next (next here (received (numbered (bytes "7")) (new 4)))
        (received (numbered (bytes "8")) _))

handle_request-Kept_example :
    Kept 7
      (numbered (bytes "7"))
      (after (numbered (bytes "8")) (after (numbered (bytes "7")) (new 4)))
unfolding pair_maps pairs_get_all Name.name_eq CSeq.decode Numbers.parse handle_request new CSeq.sub
    Table.lookup
handle_request-Kept_example =
    handle_request-Kept pair_maps 7 (numbered (bytes "7")) (new 4) _ refl refl
      (next here (received (numbered (bytes "8")) _))

-- A buffer of one place, and the request behind the expected one.
abbrev expecting : TestReceiver
expecting = record {
  buffered_requests = [];
  incoming_sequence_number = some 1;
  request_buffer_size = 1;
  tx_incoming_request = [];
}

handle_request-IsStalled_example :
    IsStalled pair_maps (handle_request pair_maps (numbered (bytes "2")) expecting)
unfolding pair_maps pairs_get_all Name.name_eq CSeq.decode Numbers.parse CSeq.sub Table.lookup
handle_request-IsStalled_example =
    handle_request-IsStalled pair_maps expecting (numbered (bytes "2")) 1 2 refl refl refl
      (omega arith) refl refl refl

abbrev waiting : TestReceiver
waiting = record expecting { buffered_requests = (1, numbered (bytes "1")) ∷ [] }

abbrev drained : TestReceiver
drained = record expecting {
  incoming_sequence_number = some 2;
  tx_incoming_request = (1, numbered (bytes "1")) ∷ [];
}

-- A handler that is told to shut down within 10 units, at time 5, and whose timer runs.
abbrev world : World
world = record { now = 5; initiation = initiated (graceful 10); timer_at = λ expiry. pending }

poll-Settled_example : Settled world (rank (state Shutdown.new)) (Shutdown.poll world Shutdown.new)
unfolding Shutdown.new
poll-Settled_example = poll-Settled world Shutdown.new refl

force_shutdown-shutdown_events_example :
    IsWell (force_shutdown Shutdown.new)
    × (state (force_shutdown Shutdown.new) ≡ shutdown)
    × ((force_shutdown Shutdown.new).shutdown_events ≡ 1)
unfolding Shutdown.new
force_shutdown-shutdown_events_example = force_shutdown-shutdown_events Shutdown.new refl

-- A request arrives, and then the stream is closed.
abbrev receiver : Receiver.Receiver Bytes Pairs Bytes
receiver = Receiver.new 10 4

abbrev closing : Receiver.World Bytes Pairs Bytes (Unit {0})
closing = record {
  updates = [];
  updates_ended = false;
  messages = Receiver.request (numbered (bytes "7")) ∷ [];
  stream_end = Receiver.closed;
  events = Receiver.decoding_started ∷ [];
  now = 3;
  timer_at = λ expiry. pending;
  channel = λ k. accepted;
  connected = λ tx. true;
}

-- A buffer of one place that is taken.
abbrev blocked : Receiver.Receiver Bytes Pairs Bytes
blocked = record receiver { forwarding_receiver = some waiting }

-- Responses to the request that waits on channel 5, whose owner is there.
abbrev answer : Status.StatusCode → Response Bytes Pairs
answer status_code = record {
  body = [];
  reason_phrase = bytes "";
  headers = (Name.cseq, record { text = bytes "7" }) ∷ [];
  status_code = status_code;
  version = Version.rtsp2_0;
}

abbrev waits : ResponseReceiver Bytes Pairs
waits = handle_pending_request_update (add_pending_request 7 5) Responses.new

handle_response-handle_response_example :
    handle_response pair_maps
      (λ tx. true)
      (answer Status.okay)
      (handle_response pair_maps (λ tx. true) (answer Status.not_found) waits)
    ≡ handle_response pair_maps (λ tx. true) (answer Status.not_found) waits
unfolding pair_maps pairs_get_all Name.name_eq CSeq.decode Numbers.parse
handle_response-handle_response_example =
    handle_response-handle_response pair_maps (λ tx. true) 7 (answer Status.not_found)
      (answer Status.okay) waits refl refl refl

handle_response-add_example :
    ((handle_response pair_maps
        (λ tx. true)
        (answer Status.okay)
        (handle_response pair_maps (λ tx. true) (answer Status.continue) waits)).sent
      ≡ [] ++ ((5, Responses.continue 0) ∷ (0, Responses.response (answer Status.okay)) ∷ []))
    × (Table.lookup 7 (
          (handle_response pair_maps
            (λ tx. true)
            (answer Status.okay)
            (handle_response pair_maps
              (λ tx. true)
              (answer Status.continue)
              waits)).pending_requests)
        ≡ none)
unfolding pair_maps pairs_get_all Name.name_eq CSeq.decode Numbers.parse Responses.new
handle_response-add_example =
    handle_response-add pair_maps (λ tx. true) 7 5 (answer Status.continue) (answer Status.okay)
      Responses.new refl refl refl refl refl refl

remove_pending_requests-Has_example :
    ((remove_pending_requests (λ tx. true) waits).pending_requests ≡ [])
    × Table.Has 5 Responses.no_response ((remove_pending_requests (λ tx. true) waits).sent)
unfolding handle_pending_request_update Table.lookup
remove_pending_requests-Has_example =
    remove_pending_requests-Has pair_maps (λ tx. true) 7 5 waits refl refl
