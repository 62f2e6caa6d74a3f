-- ===== src/Codec.antt =====
-- rtsp-2/src/protocol/codec: the decoders of requests and responses.
pub mod Decoder
pub mod Encoder
pub mod Roundtrip
pub mod Codec
