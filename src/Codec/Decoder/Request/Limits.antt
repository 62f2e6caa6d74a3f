-- ===== src/Codec/Decoder/Request/Limits.antt =====
-- rtsp-2/src/protocol/codec/decoder/request.rs: the configuration of the request decoder.
use rtsp_rs.Prelude.{ℕ}
use rtsp_rs.Codec.Decoder.{
  body_default_max_length, header_default_max_count, header_name_default_max_length,
  header_value_default_max_length, method_default_max_length, uri_default_max_length,
}

pub record Config : Type 0 where
  pub body_max_length : ℕ
  pub header_max_count : ℕ
  pub header_name_max_length : ℕ
  pub header_value_max_length : ℕ
  pub method_max_length : ℕ
  pub uri_max_length : ℕ

-- `ConfigBuilder::new` and `build`.
abbrev pub default_config : Config
default_config = record {
  body_max_length = body_default_max_length;
  header_max_count = header_default_max_count;
  header_name_max_length = header_name_default_max_length;
  header_value_max_length = header_value_default_max_length;
  method_max_length = method_default_max_length;
  uri_max_length = uri_default_max_length;
}
