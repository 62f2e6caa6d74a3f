-- ===== src/Codec/Encoder.antt =====
-- rtsp-2/src/protocol/codec/encoder: requests and responses as bytes. The string of a URI is an
-- argument.
use rtsp_rs.Prelude.{ℕ, List, [], ◌∷◌, ◌++◌, Bytes, bytes, length, ltb, if◌then◌else◌}
use rtsp_rs.Header.Map.{HeaderMaps}
use rtsp_rs.Header.Name
use rtsp_rs.Header.Name.{HeaderName, canonical_name, name_eq}
use rtsp_rs.Header.Numbers
use rtsp_rs.Header.Value.{HeaderValue}
use rtsp_rs.Method
use rtsp_rs.Request.{Request}
use rtsp_rs.Response.{Response}
use rtsp_rs.Status
use rtsp_rs.Version

-- One header: its name, `": "`, its value, and a line break.
unfoldable pub header_line : HeaderName → Bytes → Bytes
header_line name text = canonical_name name ++ (bytes ": " ++ (text ++ bytes "\r\n"))

-- `Content-Length`, for a body that is not empty.
unfoldable pub content_length_line : ℕ → Bytes
content_length_line body_size =
    if ltb 0 body_size
    then bytes "Content-Length: " ++ (Numbers.to_string body_size ++ bytes "\r\n")
    else []

-- The loop over the headers, which passes over `Content-Length`.
unfoldable pub header_lines : List (HeaderName × HeaderValue) → Bytes
header_lines [] = []
header_lines ((name, value) ∷ pairs) =
    let rest = header_lines pairs in
    if name_eq name Name.content_length then rest else header_line name value.text ++ rest

module _ {Map : Type 0} (maps : HeaderMaps Map) where
  -- What follows the first line.
  unfoldable pub encode_rest : Map → Bytes → Bytes
  encode_rest headers body =
      content_length_line (length body)
      ++ (header_lines (maps.iter headers) ++ (bytes "\r\n" ++ body))

  module _ {Uri : Type 0} (uri_to_string : Uri → Bytes) where
    unfoldable pub encode_request : Request Bytes Map Uri → Bytes → Bytes
    encode_request request buffer =
        buffer
        ++ (Method.as_str request.method
            ++ (bytes " "
                ++ (uri_to_string request.uri
                    ++ (bytes " "
                        ++ (Version.as_encoded request.version
                            ++ (bytes "\r\n" ++ encode_rest request.headers request.body))))))

  unfoldable pub encode_response : Response Bytes Map → Bytes → Bytes
  encode_response response buffer =
      buffer
      ++ (Version.as_encoded response.version
          ++ (bytes " "
              ++ (Numbers.to_string (Status.to_code response.status_code)
                  ++ (bytes " "
                      ++ (response.reason_phrase
                          ++ (bytes "\r\n" ++ encode_rest response.headers response.body))))))
