-- ===== src/Tests/Messages.antt =====
-- Runs of the codec at concrete inputs. The sink is the list of the events that it was sent.
use rtsp_rs.Prelude.{◌≡◌, List, [], ◌∷◌, ◌++◌, Bytes, bytes, Option, some, none, ok}
use rtsp_rs.Header.Map.{Pairs, pair_maps}
use rtsp_rs.Codec.Codec.{
  Attempt, Codec, Message, request, response, CodecEvent, new_codec, decode, attempted, told,
  decoding_started,
}
use rtsp_rs.Codec.Codec.Chunks.{decode-Resumes}
use rtsp_rs.Codec.Codec.Idle.{idle}
use rtsp_rs.Codec.Codec.Parts.{Resumes}
use rtsp_rs.Codec.Codec.LineBreaks.{line_breaks, decode-line_breaks}
use rtsp_rs.Codec.Codec.Delivery.{send_all, Arrive, receive-send_all}
use rtsp_rs.Codec.Codec.Sound.{Safe, new_codec-IsSound}
use rtsp_rs.Codec.Decoder.Request.Limits as RequestLimits
use rtsp_rs.Codec.Decoder.Response as ResponseDecoder
use rtsp_rs.Tests.Decoding.{star}
use rtsp_rs.Tests.Roundtrip.{setup, setup-IsSendable, reply, reply-IsSendable}

abbrev send : CodecEvent → List CodecEvent → Option (List CodecEvent)
send event events = some (events ++ (event ∷ []))

abbrev same : Bytes → Bytes
same uri = uri

abbrev new : Codec Pairs Bytes (Unit {0}) (List CodecEvent)
new = new_codec (Unit {0}) pair_maps star same send (some [])

abbrev waiting : Codec Pairs Bytes (Unit {0}) (List CodecEvent)
waiting =
    idle (Unit {0}) pair_maps star same send RequestLimits.default_config
      ResponseDecoder.default_config 0 0 (some [])

abbrev messages : List (Message Pairs Bytes)
messages = request setup ∷ response reply ∷ []

receive-send_all_example :
    Arrive
      (Unit {0})
      pair_maps
      star
      same
      send
      RequestLimits.default_config
      ResponseDecoder.default_config
      messages
      0
      0
      (some [])
      ((send_all (Unit {0}) pair_maps star same send messages new []).1 ++ bytes "RTSP")
      (bytes "RTSP")
receive-send_all_example =
    receive-send_all (Unit {0}) pair_maps star same send RequestLimits.default_config
      ResponseDecoder.default_config messages new 0 0 (some []) (bytes "RTSP")
      (setup-IsSendable, (reply-IsSendable, tt))

abbrev SafeHere : Attempt Pairs Bytes (Unit {0}) (Unit {0}) (List CodecEvent) → Type 0
SafeHere =
    Safe (Unit {0}) pair_maps star same send RequestLimits.default_config
      ResponseDecoder.default_config (bytes "RTSP/2.0 2")

decode-line_breaks_example :
    (decode (Unit {0}) pair_maps star same send waiting (line_breaks 2 [])
      ≡ attempted (ok none) waiting [])
    × (decode (Unit {0}) pair_maps star same send waiting (line_breaks 2 (b'\r' ∷ []))
        ≡ attempted
            (ok none)
            (record waiting {
              tx_event = told (Unit {0}) pair_maps star same send decoding_started (some []);
            })
            (b'\r' ∷ []))
decode-line_breaks_example =
    decode-line_breaks (Unit {0}) pair_maps star same send RequestLimits.default_config
      ResponseDecoder.default_config 0 0 (some []) 2

decode-Resumes_example :
    Resumes
      (Unit {0})
      pair_maps
      star
      same
      send
      RequestLimits.default_config
      ResponseDecoder.default_config
      (bytes "/2.0 200")
      (decode (Unit {0}) pair_maps star same send new (bytes "\r\nRTSP"))
      (decode (Unit {0}) pair_maps star same send new (bytes "\r\nRTSP" ++ bytes "/2.0 200"))
decode-Resumes_example =
    decode-Resumes (Unit {0}) pair_maps star same send RequestLimits.default_config
      ResponseDecoder.default_config new (bytes "\r\nRTSP") (bytes "/2.0 200")
      (new_codec-IsSound (Unit {0}) pair_maps star same send (some []))
