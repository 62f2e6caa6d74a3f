-- ===== src/Header.antt =====
-- rtsp-2/src/header: names, values and the typed headers that the protocol reads.
pub mod Name
pub mod Value
pub mod Numbers
pub mod CSeq
pub mod ContentLength
pub mod Map
pub mod Session
