-- ===== src/Codec/Codec/Parts.antt =====
-- rtsp-2/src/protocol/codec/mod.rs: what it is for a message to arrive in parts, at the codec.
use rtsp_rs.Prelude.{
  ℕ, ◌+◌, ◌≤◌, ◌≡◌, ap, sym, ◌∙◌, ◌++◌, Bytes, length, drop, drop-append, drop-drop, Option, none,
  some, Result, ok, err,
}
use rtsp_rs.Header.Map.{HeaderMaps}
use rtsp_rs.Codec.Decoder.Request.Limits as RequestLimits
use rtsp_rs.Codec.Decoder.Response as ResponseDecoder
use rtsp_rs.Codec.Codec.{Attempt, attempted, panicked, CodecEvent, decode}

pub drop_later :
    (buffer later : Bytes) (n k : ℕ)
    → n ≤ length buffer
    → drop (n + k) (buffer ++ later) ≡ drop k (drop n buffer ++ later)
drop_later buffer later n k le =
    sym (drop-drop k n (buffer ++ later)) ∙ ap (drop k) (drop-append n buffer later le)

module _ {Map Uri UriError Sink : Type 0} (IoError : Type 0) (maps : HeaderMaps Map)
    (uri_try_from : Bytes → Result Uri UriError) (uri_to_string : Uri → Bytes)
    (unbounded_send : CodecEvent → Sink → Option Sink) (request_config : RequestLimits.Config)
    (response_config : ResponseDecoder.Config) where
  -- A call without what became of the sink.
  abbrev pub forget : Attempt Map Uri UriError IoError Sink → Attempt Map Uri UriError IoError Sink
  forget (attempted result c rest) = attempted result (record c { tx_event = none }) rest
  forget panicked = panicked

  -- What a codec gives for a buffer with `later` behind it, by what it gives for the buffer.
  abbrev pub Resumes :
      Bytes → Attempt Map Uri UriError IoError Sink → Attempt Map Uri UriError IoError Sink → Type 0
  Resumes later (attempted (ok (some message)) c rest) whole =
      whole ≡ attempted (ok (some message)) c (rest ++ later)
  Resumes later (attempted (ok none) c rest) whole =
      forget whole
      ≡ forget (decode IoError maps uri_try_from uri_to_string unbounded_send c (rest ++ later))
  Resumes later (attempted (err e) c rest) whole = Unit {0}
  Resumes later panicked whole = ⊥
