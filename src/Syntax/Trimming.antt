-- ===== src/Syntax/Trimming.antt =====
-- rtsp-2/src/syntax.rs, `trim_bytes_whitespace_left`: its loop ends with nothing left to trim.
use rtsp_rs.Prelude.{◌<◌, ◌≡◌, ◌⊎◌, Bytes, length}
use rtsp_rs.Syntax.{strip_line_break, strip_blank}

-- One turn of the loop.
abbrev pub strip : Bytes → Bytes
strip value = strip_blank (strip_line_break value)

abbrev Shrinks : Bytes → Bytes → Type 0
Shrinks value s = (s ≡ value) ⊎ (length s < length value)
