-- ===== src/Connection/Pending/Waking.antt =====
-- rtsp-2/src/protocol/connection/pending.rs: what wakes the task of a request behind a response 100.
use rtsp_rs.Prelude.{ℕ}
use rtsp_rs.Response.{Response}
use rtsp_rs.Connection.Pending.{SendRequest, World, expiry}

module _ {Body Map : Type 0} (world : World Body Map) (s : SendRequest) where
  -- The future behind a response 100 that came with this channel.
  abbrev pub moved : ℕ → SendRequest
  moved rx_response = record s {
    rx_response = rx_response;
    timer = expiry world.now s.timeout_duration;
  }
