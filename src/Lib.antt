-- ===== src/Lib.antt =====
-- rtsp-rs: a library for RTSP 2.0 (RFC 7826) in Rust. This library models its syntax, its codec with both
-- decoders and the encoders, and the tasks of a connection.
--
-- The parts of the program and how they interact. A connection (rtsp-2/src/protocol/connection) polls a
-- receiver, a sender, a request handler and a shutdown handler. The codec below it
-- (rtsp-2/src/protocol/codec/mod.rs) turns messages into bytes and bytes into messages. It looks at the
-- first bytes of a message to choose between the request decoder and the response decoder
-- (rtsp-2/src/protocol/codec/decoder). A decoder is called with whatever bytes have come, keeps its state
-- between calls and says how many bytes it has read; it calls the decoding of methods, versions, header
-- names, header values and the content length. The receiver (rtsp-2/src/protocol/connection/receiver.rs)
-- gives requests to its forwarding receiver, which hands them to the request handler in the order of their
-- sequence numbers, and responses to its response receiver, which finds the request that waits for them
-- and tells its future (rtsp-2/src/protocol/connection/pending.rs) through a channel.
--
-- Files, and the code that they model:
--   Version             rtsp-common/src/version.rs: `Version`, `try_decode`
--   Syntax              rtsp-2/src/syntax.rs: `TOKEN_CHAR_MAP`, `is_token`; Syntax/Whitespace: trimming
--   Method              rtsp-2/src/method.rs: `Method`, `try_from`, `extension`, `as_str`
--   Header/Name, Value  rtsp-2/src/header/name.rs and value.rs: `try_from`, the table of names
--   Header/Map          rtsp-2/src/header/map.rs: `typed_try_get`, `typed_get`
--   Header/Numbers      `parse` and `to_string` of the unsigned integers of Rust
--   Header/CSeq         rtsp-2/src/header/types/cseq.rs: `decode`, `encode`, arithmetic
--   Header/ContentLength  rtsp-2/src/header/types/content_length.rs: `decode`, `encode`
--   Status, Reason      rtsp-2/src/status.rs and reason.rs
--   Session             rtsp-2/src/session.rs: `SessionID`
--   Header/Session      rtsp-2/src/header/types/session.rs: `decode`, `encode`
--   Response            rtsp-2/src/response.rs: `Response`, `Builder`, `build`
--   Request             rtsp-2/src/request.rs: `Request`, `Builder`, `build`
--   Codec/Decoder       rtsp-2/src/protocol/codec/decoder/mod.rs: `DecodeResult`, limits, trimming
--   Codec/Decoder/Loop, Steps    the loop of `decode` and what it asks of its turns
--   Codec/Decoder/Search, Headers   the searches for delimiters
--   Codec/Decoder/Request        rtsp-2/src/protocol/codec/decoder/request.rs: `Decoder`
--   Codec/Decoder/Response       rtsp-2/src/protocol/codec/decoder/response.rs: `Decoder`
--   Codec/Codec         rtsp-2/src/protocol/codec/mod.rs: `Codec`, `decode`, `decode_eof`, `encode`
--   Codec/Encoder       rtsp-2/src/protocol/codec/encoder/request.rs and response.rs: `encode`
--   Codec/Roundtrip     the decoders on what the encoders write
--   Connection/Forwarding, Responses, Receiver   rtsp-2/src/protocol/connection/receiver.rs:
--                       `ForwardingReceiver`, `ResponseReceiver`, `Receiver`
--   Connection/Shutdown rtsp-2/src/protocol/connection/shutdown.rs: `ShutdownHandler`
--   Connection/Handler  rtsp-2/src/protocol/connection/handler.rs: `RequestHandler`
--   Connection/Sender   rtsp-2/src/protocol/connection/sender.rs: `Sender`
--   Connection/Pending  rtsp-2/src/protocol/connection/pending.rs: `SendRequest`
--   Connection/Table    the hash maps of the receivers as association lists
--   Tests               runs at concrete inputs
--
-- How state and operations correspond. A struct is a record with the fields of the source, a method a
-- function of the same name from the record to its result and the record behind it. A byte is a number, a
-- slice a list of numbers; a slice that a method moves forward is returned as what is left. Unsigned
-- integers are natural numbers, with the wrap-around written out where the source can reach it. `expect`
-- and `panic!` are a result of their own (`panicked`, or `none` where the comment says so); debug
-- assertions are left out.
--
-- Parameters. The header map is `ListOrderedMultimap` of another crate: the record `HeaderMaps` has the
-- operations that the code calls and what the crate documents of them, and lists of pairs meet it.
-- `URI::try_from` and `URI::to_string` stand on the crate uriparse and are arguments. The channel of codec
-- events is a function that sends an event and returns the channel or fails. Channels, timers and the
-- stream of messages belong to futures and tokio: a poll of a task takes their answers as arguments
-- (`World`).
--
-- Loops. The loop of the decoder runs on the length of the buffer and 3 as fuel: each turn takes a byte or
-- comes nearer to the end of the request. The loop that forwards requests runs on the length of the buffer
-- of requests and 1: each turn takes a request out. The loop of the shutdown handler runs on 3, the number
-- of its states. The loops that trim white space run on the length of the text and 2: each turn but the
-- last makes it shorter. All other loops are by recursion on a list.
--
-- Not modelled: the connection that polls all tasks; the other typed headers, media types and URIs; client
-- and server, which are sockets and executors.
pub mod Codec
pub mod Connection
pub mod Header
pub mod Method
pub mod Prelude
pub mod Reason
pub mod Request
pub mod Response
pub mod Session
pub mod Status
pub mod Syntax
pub mod Tests
pub mod Version
