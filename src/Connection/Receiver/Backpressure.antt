-- ===== src/Connection/Receiver/Backpressure.antt =====
-- rtsp-2/src/protocol/connection/receiver.rs: a receiver whose buffer of requests is full.
use rtsp_rs.Connection.Receiver.{Receiver}
