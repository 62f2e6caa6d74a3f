-- ===== src/Tests/Roundtrip.antt =====
-- Runs of the encoders and decoders, one behind the other.
use rtsp_rs.Prelude.{◌≡◌, refl, ◌++◌, ◌∷◌, [], Bytes, bytes, length, arith, bytes_eq}
use rtsp_rs.Header.Map.{Pairs, pair_maps}
use rtsp_rs.Header.Name
use rtsp_rs.Method
use rtsp_rs.Request.{Request}
use rtsp_rs.Reason
use rtsp_rs.Response.{Response}
use rtsp_rs.Status
use rtsp_rs.Version.{rtsp2_0}
use rtsp_rs.Codec.Decoder.{complete}
use rtsp_rs.Codec.Decoder.Loop.Report.{returned}
use rtsp_rs.Codec.Decoder.Request.Limits.{default_config}
use rtsp_rs.Codec.Decoder.Request.Turns.{decode}
use rtsp_rs.Codec.Decoder.Response as ResponseDecoder
use rtsp_rs.Codec.Decoder.Response.Turns as DecoderTurns
use rtsp_rs.Codec.Roundtrip.Response as SendableResponse
use rtsp_rs.Codec.Roundtrip.Response.FirstLine
use rtsp_rs.Codec.Roundtrip.Response.Whole.{decode-encode_response}
use rtsp_rs.Codec.Encoder.{encode_request, encode_response}
use rtsp_rs.Header.Value
use rtsp_rs.Header.Name.Cases.{try_from-canonical_name, try_from_cseq}
use rtsp_rs.Method.Cases.{try_from-setup}
use rtsp_rs.Codec.Roundtrip.Headers.{received}
use rtsp_rs.Codec.Roundtrip.Lines.{IsWritable}
use rtsp_rs.Codec.Roundtrip.Request.{IsSendable}
use rtsp_rs.Codec.Roundtrip.Request.FirstLine.{waiting}
use rtsp_rs.Codec.Roundtrip.Request.Whole.{decode-encode_request}
use rtsp_rs.Codec.Roundtrip.Sent.{content_length_header, others}
use rtsp_rs.Tests.Decoding.{star}

abbrev pub setup : Request Bytes Pairs Bytes
setup = record {
  body = bytes "hi";
  headers =
      (Name.cseq, record { text = bytes "7" })
      ∷ (Name.content_length, record { text = bytes "9" })
      ∷ [];
  method = Method.setup;
  uri = bytes "*";
  version = rtsp2_0;
}

cseq-IsWritable : IsWritable 100 2000 Name.cseq (record { text = bytes "7" })
unfolding Name.canonical_name Value.try_from
cseq-IsWritable = record {
  name_parses = try_from-canonical_name (bytes "cseq") Name.cseq try_from_cseq;
  name_le = omega arith;
  value_parses = refl;
  one_line = refl;
  unindented = refl;
  value_le = omega arith;
}

pub setup-IsSendable : IsSendable pair_maps star (λ u. u) default_config setup
unfolding bytes_eq pair_maps Name.name_eq Method.as_str
setup-IsSendable = record {
  method_parses = try_from-setup;
  method_le = omega arith;
  uri_parses = refl;
  uri_lacks_space = refl;
  uri_le = omega arith;
  is_rtsp2_0 = refl;
  rest_sendable = record {
    headers_writable = (cseq-IsWritable, tt);
    headers_le = omega arith;
    body_le = omega arith;
    body_countable = omega arith;
    length_name_le = omega arith;
    length_value_le = omega arith;
  };
}

decode-encode_request_example :
    (decode pair_maps star
        (waiting pair_maps default_config 3)
        (encode_request pair_maps (λ u. u) setup [] ++ bytes "OPTIONS")
      ≡ returned
          (complete (record setup { headers = received pair_maps setup.headers setup.body }))
          (length (encode_request pair_maps (λ u. u) setup []))
          (waiting pair_maps default_config 2))
    × (pair_maps.iter (received pair_maps setup.headers setup.body)
        ≡ content_length_header 2 ++ others (pair_maps.iter setup.headers))
decode-encode_request_example =
    decode-encode_request pair_maps star (λ u. u) default_config setup setup-IsSendable 3
      (bytes "OPTIONS")

abbrev pub reply : Response Bytes Pairs
reply = record {
  body = [];
  reason_phrase = bytes "Fine";
  headers = (Name.cseq, record { text = bytes "7" }) ∷ [];
  status_code = Status.extension 299;
  version = rtsp2_0;
}

pub reply-IsSendable : SendableResponse.IsSendable pair_maps ResponseDecoder.default_config reply
unfolding pair_maps Name.name_eq Status.try_from Status.to_code Reason.try_from
reply-IsSendable = record {
  is_rtsp2_0 = refl;
  code_parses = refl;
  reason_parses = refl;
  reason_one_line = refl;
  reason_le = omega arith;
  reason_is = λ h. cc;
  rest_sendable = record {
    headers_writable = (cseq-IsWritable, tt);
    headers_le = omega arith;
    body_le = omega arith;
    body_countable = omega arith;
    length_name_le = omega arith;
    length_value_le = omega arith;
  };
}

decode-encode_response_example :
    (DecoderTurns.decode pair_maps
        (FirstLine.waiting pair_maps ResponseDecoder.default_config 0)
        (encode_response pair_maps reply [] ++ [])
      ≡ returned
          (complete (record reply { headers = received pair_maps reply.headers reply.body }))
          (length (encode_response pair_maps reply []))
          (FirstLine.waiting pair_maps ResponseDecoder.default_config 0))
    × (pair_maps.iter (received pair_maps reply.headers reply.body)
        ≡ content_length_header 0 ++ others (pair_maps.iter reply.headers))
decode-encode_response_example =
    decode-encode_response pair_maps ResponseDecoder.default_config reply reply-IsSendable 0 []
