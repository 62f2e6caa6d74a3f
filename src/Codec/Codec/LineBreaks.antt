-- ===== src/Codec/Codec/LineBreaks.antt =====
-- rtsp-2/src/protocol/codec/mod.rs: the line breaks in front of a message.
use rtsp_rs.Prelude.{ℕ, zero, suc, ◌≡◌, refl, [], ◌∷◌, Bytes, Option, none, Result, ok}
use rtsp_rs.Header.Map.{HeaderMaps}
use rtsp_rs.Codec.Codec.{
  Codec, attempted, CodecEvent, decoding_started, skip_line_breaks, told, send_codec_event,
  decode_start, decode,
}
use rtsp_rs.Codec.Codec.Idle.{idle}
use rtsp_rs.Codec.Decoder.Request.Limits as RequestLimits
use rtsp_rs.Codec.Decoder.Response as ResponseDecoder

-- So many line breaks, in front of a rest.
abbrev pub line_breaks : ℕ → Bytes → Bytes
line_breaks zero rest = rest
line_breaks (suc k) rest = b'\r' ∷ b'\n' ∷ line_breaks k rest

skip_line_breaks-line_breaks :
    (k : ℕ) (rest : Bytes) → skip_line_breaks (line_breaks k rest) ≡ skip_line_breaks rest
unfolding skip_line_breaks
skip_line_breaks-line_breaks zero rest = refl
skip_line_breaks-line_breaks (suc k) rest = skip_line_breaks-line_breaks k rest

module _ {Map Uri UriError Sink : Type 0} (IoError : Type 0) (maps : HeaderMaps Map)
    (uri_try_from : Bytes → Result Uri UriError) (uri_to_string : Uri → Bytes)
    (unbounded_send : CodecEvent → Sink → Option Sink) (request_config : RequestLimits.Config)
    (response_config : ResponseDecoder.Config) (n m : ℕ) (tx_event : Option Sink) where
  abbrev ready : Option Sink → Codec Map Uri UriError Sink
  ready =
      idle IoError maps uri_try_from uri_to_string unbounded_send request_config response_config n m

  -- Line breaks in front of a message are taken, without an event and without a message, as long as
  -- they are whole; but when the buffer ends within one, behind its carriage return, the event that
  -- decoding has started is sent, although there is no byte of a message.
  pub decode-line_breaks :
      (k : ℕ)
      → (decode IoError maps uri_try_from uri_to_string unbounded_send
            (ready tx_event)
            (line_breaks k [])
          ≡ attempted (ok none) (ready tx_event) [])
        × (decode IoError maps uri_try_from uri_to_string unbounded_send
              (ready tx_event)
              (line_breaks k (b'\r' ∷ []))
            ≡ attempted
                (ok none)
                (ready (
                  told IoError maps uri_try_from uri_to_string unbounded_send decoding_started
                    tx_event))
                (b'\r' ∷ []))
  unfolding decode decode_start send_codec_event skip_line_breaks
  decode-line_breaks k = (
    (rw (skip_line_breaks-line_breaks k []) refl),
    (rw (skip_line_breaks-line_breaks k (b'\r' ∷ [])) refl),
  )
