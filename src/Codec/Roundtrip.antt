-- ===== src/Codec/Roundtrip.antt =====
-- rtsp-2/src/protocol/codec: what the encoders write, the decoders read.
pub mod Printed
pub mod Tokens
pub mod Lines
pub mod Digits
pub mod Sent
pub mod Request
pub mod Headers
pub mod StatusLine
pub mod Response
