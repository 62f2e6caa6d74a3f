-- ===== src/Tests/Outgoing.antt =====
-- Runs of the request handler and of the sender at concrete inputs.
use rtsp_rs.Prelude.{
  ℕ, List, Bool, ltb, if◌then◌else◌, true, false, ◌≡◌, refl, Bytes, bytes, [], ◌∷◌, some,
}
use rtsp_rs.Header.Map.{pair_maps}
use rtsp_rs.Connection.{not_ready}
use rtsp_rs.Connection.Shutdown.{elapsed, pending}
use rtsp_rs.Tests.Requests.{TestRequest, numbered}
use rtsp_rs.Connection.Handler.{RequestHandler, done, unfinished}
use rtsp_rs.Connection.Handler
use rtsp_rs.Connection.Handler.InOrder.{Ordered, poll-Ordered}
use rtsp_rs.Connection.Sender
use rtsp_rs.Connection.Sender.{Sender, taken, refused}
use rtsp_rs.Connection.Sender.Delivery.{Delivered, poll-Delivered}

-- A request in service, and two behind it.
abbrev busy_handler : RequestHandler Bytes Bytes
busy_handler = record {
  continue_timer = some 3;
  continue_wait_duration = some 5;
  sender_handle = true;
  serviced_request = some (6, bytes "*");
  tx_shutdown_event = true;
  responses = [];
}

abbrev answering : Handler.World Bytes Bytes
answering = record { now = 4; sender_exists = true; future_at = λ f. done f }

abbrev two_requests : List (ℕ × TestRequest)
two_requests = (7, numbered (bytes "7")) ∷ (8, numbered (bytes "8")) ∷ []

poll-Ordered_example : Ordered (6 ∷ 7 ∷ 8 ∷ []) (elapsed ∷ pending ∷ []) (
    Handler.poll pair_maps
      (λ u. false)
      (λ r. r.uri)
      answering
      true
      two_requests
      (elapsed ∷ pending ∷ [])
      busy_handler)
poll-Ordered_example =
    poll-Ordered pair_maps (λ u. false) (λ r. r.uri) answering refl true two_requests
      (elapsed ∷ pending ∷ []) busy_handler refl

-- A service that does not finish: a 100 (Continue) is sent when the timer elapses.
abbrev working : Handler.World Bytes Bytes
working = record { now = 4; sender_exists = true; future_at = λ f. unfinished }

continue_while_busy :
    Handler.poll_serviced_request working (elapsed ∷ pending ∷ []) busy_handler
    ≡ Handler.not_ready []
        (record busy_handler { continue_timer = some 9; responses = (6, Handler.continue) ∷ [] })
unfolding Handler.poll_serviced_request Handler.poll_serviced Handler.poll_future
    Handler.continue_loop Handler.send_response Handler.reset_continue_timer
continue_while_busy = refl

-- A message that was refused before, and two in the channel; the sink takes two and refuses the third.
abbrev full_sink : Sender.World (ℕ × Bool) ℕ
full_sink = record {
  insert_date = λ m. (m.0, true);
  start_send = λ k. if ltb k 2 then taken else refused;
  poll_complete = not_ready;
  close = not_ready;
  ended = false;
}

abbrev three_messages : Sender (ℕ × Bool)
three_messages = record {
  buffered_message = some (1, true);
  rx_outgoing_message = (2, false) ∷ (3, false) ∷ [];
  sink = [];
}

poll-Delivered_example :
    Delivered (λ m. m.0) (1 ∷ 2 ∷ 3 ∷ []) (Sender.poll full_sink three_messages)
poll-Delivered_example = poll-Delivered (λ m. m.0) full_sink three_messages (λ m. refl)

third_buffered : Sender.poll full_sink three_messages ≡ (
  not_ready,
  record {
    buffered_message = some (3, true);
    rx_outgoing_message = [];
    sink = (1, true) ∷ (2, true) ∷ [];
  },
)
unfolding Sender.poll Sender.poll_buffered Sender.write_and_close Sender.poll_write
    Sender.write_loop Sender.try_send_message Sender.try_ready
third_buffered = refl
