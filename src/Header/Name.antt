-- ===== src/Header/Name.antt =====
-- rtsp-2/src/header/name.rs: the names of headers, standard ones and extensions.
pub mod Cases
use rtsp_rs.Prelude.{
  ℕ, List, Bool, false, [], ◌∷◌, ◌&&◌, not, ◌==◌, if◌then◌else◌, map, Bytes, bytes, length, take,
  bytes_eq, Result, ok, err, Option, some, none, to_ascii_lowercase,
}
use rtsp_rs.Syntax.{is_token}

pub data HeaderNameError : Type 0 where
  empty invalid_character : HeaderNameError

-- An extension holds the two strings of `ExtensionHeaderName`: as written, and in lower case.
pub data HeaderName : Type 0 where
  accept accept_credentials accept_encoding accept_language accept_ranges allow : HeaderName
  authentication_info authorization bandwidth blocksize cache_control connection : HeaderName
  connection_credentials content_base content_encoding content_language : HeaderName
  content_length content_location content_type cseq date expires from if_match : HeaderName
  if_modified_since if_none_match last_modified location media_properties : HeaderName
  media_range mtag notify_reason pipelined_requests proxy_authenticate : HeaderName
  proxy_authentication_info proxy_authorization proxy_require proxy_supported : HeaderName
  public range referrer request_status require retry_after rtp_info scale : HeaderName
  seek_style server session speed supported terminate_reason timestamp transport : HeaderName
  unsupported user_agent via www_authenticate : HeaderName
  extension : Bytes → Bytes → HeaderName

unfoldable pub as_str : HeaderName → Bytes
as_str accept = bytes "accept"
as_str accept_credentials = bytes "accept-credentials"
as_str accept_encoding = bytes "accept-encoding"
as_str accept_language = bytes "accept-language"
as_str accept_ranges = bytes "accept-ranges"
as_str allow = bytes "allow"
as_str authentication_info = bytes "authentication-info"
as_str authorization = bytes "authorization"
as_str bandwidth = bytes "bandwidth"
as_str blocksize = bytes "blocksize"
as_str cache_control = bytes "cache-control"
as_str connection = bytes "connection"
as_str connection_credentials = bytes "connection-credentials"
as_str content_base = bytes "content-base"
as_str content_encoding = bytes "content-encoding"
as_str content_language = bytes "content-language"
as_str content_length = bytes "content-length"
as_str content_location = bytes "content-location"
as_str content_type = bytes "content-type"
as_str cseq = bytes "cseq"
as_str date = bytes "date"
as_str expires = bytes "expires"
as_str from = bytes "from"
as_str if_match = bytes "if-match"
as_str if_modified_since = bytes "if-modified-since"
as_str if_none_match = bytes "if-none-match"
as_str last_modified = bytes "last-modified"
as_str location = bytes "location"
as_str media_properties = bytes "media-properties"
as_str media_range = bytes "media-range"
as_str mtag = bytes "mtag"
as_str notify_reason = bytes "notify-reason"
as_str pipelined_requests = bytes "pipelined-requests"
as_str proxy_authenticate = bytes "proxy-authenticate"
as_str proxy_authentication_info = bytes "proxy-authentication-info"
as_str proxy_authorization = bytes "proxy-authorization"
as_str proxy_require = bytes "proxy-require"
as_str proxy_supported = bytes "proxy-supported"
as_str public = bytes "public"
as_str range = bytes "range"
as_str referrer = bytes "referrer"
as_str request_status = bytes "request-status"
as_str require = bytes "require"
as_str retry_after = bytes "retry-after"
as_str rtp_info = bytes "rtp-info"
as_str scale = bytes "scale"
as_str seek_style = bytes "seek-style"
as_str server = bytes "server"
as_str session = bytes "session"
as_str speed = bytes "speed"
as_str supported = bytes "supported"
as_str terminate_reason = bytes "terminate-reason"
as_str timestamp = bytes "timestamp"
as_str transport = bytes "transport"
as_str unsupported = bytes "unsupported"
as_str user_agent = bytes "user-agent"
as_str via = bytes "via"
as_str www_authenticate = bytes "www-authenticate"
as_str (extension name lowercase) = lowercase

unfoldable pub canonical_name : HeaderName → Bytes
canonical_name accept = bytes "Accept"
canonical_name accept_credentials = bytes "Accept-Credentials"
canonical_name accept_encoding = bytes "Accept-Encoding"
canonical_name accept_language = bytes "Accept-Language"
canonical_name accept_ranges = bytes "Accept-Ranges"
canonical_name allow = bytes "Allow"
canonical_name authentication_info = bytes "Authentication-Info"
canonical_name authorization = bytes "Authorization"
canonical_name bandwidth = bytes "Bandwidth"
canonical_name blocksize = bytes "Blocksize"
canonical_name cache_control = bytes "Cache-Control"
canonical_name connection = bytes "Connection"
canonical_name connection_credentials = bytes "Connection-Credentials"
canonical_name content_base = bytes "Content-Base"
canonical_name content_encoding = bytes "Content-Encoding"
canonical_name content_language = bytes "Content-Language"
canonical_name content_length = bytes "Content-Length"
canonical_name content_location = bytes "Content-Location"
canonical_name content_type = bytes "Content-Type"
canonical_name cseq = bytes "CSeq"
canonical_name date = bytes "Date"
canonical_name expires = bytes "Expires"
canonical_name from = bytes "From"
canonical_name if_match = bytes "If-Match"
canonical_name if_modified_since = bytes "If-Modified-Since"
canonical_name if_none_match = bytes "If-None-Match"
canonical_name last_modified = bytes "Last-Modified"
canonical_name location = bytes "Location"
canonical_name media_properties = bytes "Media-Properties"
canonical_name media_range = bytes "Media-Range"
canonical_name mtag = bytes "MTag"
canonical_name notify_reason = bytes "Notify-Reason"
canonical_name pipelined_requests = bytes "Pipelined-Requests"
canonical_name proxy_authenticate = bytes "Proxy-Authenticate"
canonical_name proxy_authentication_info = bytes "Proxy-Authentication-Info"
canonical_name proxy_authorization = bytes "Proxy-Authorization"
canonical_name proxy_require = bytes "Proxy-Require"
canonical_name proxy_supported = bytes "Proxy-Supported"
canonical_name public = bytes "Public"
canonical_name range = bytes "Range"
canonical_name referrer = bytes "Referrer"
canonical_name request_status = bytes "Request-Status"
canonical_name require = bytes "Require"
canonical_name retry_after = bytes "Retry-After"
canonical_name rtp_info = bytes "RTP-Info"
canonical_name scale = bytes "Scale"
canonical_name seek_style = bytes "Seek-Style"
canonical_name server = bytes "Server"
canonical_name session = bytes "Session"
canonical_name speed = bytes "Speed"
canonical_name supported = bytes "Supported"
canonical_name terminate_reason = bytes "Terminate-Reason"
canonical_name timestamp = bytes "Timestamp"
canonical_name transport = bytes "Transport"
canonical_name unsupported = bytes "Unsupported"
canonical_name user_agent = bytes "User-Agent"
canonical_name via = bytes "Via"
canonical_name www_authenticate = bytes "WWW-Authenticate"
canonical_name (extension name lowercase) = name

-- `HeaderName::extension`.
to_extension : Bytes → Result HeaderName HeaderNameError
to_extension [] = err empty
to_extension (c ∷ cs) =
    if not (is_token (c ∷ cs))
    then err invalid_character
    else ok (extension (c ∷ cs) (map to_ascii_lowercase (c ∷ cs)))

-- The macro `check_header_name!`: `name` if `value` spells it, and else what follows.
check_header_name :
    Bytes → HeaderName → Result HeaderName HeaderNameError → Result HeaderName HeaderNameError
check_header_name value name otherwise =
    let spelling = as_str name in
    if bytes_eq (map to_ascii_lowercase (take (length spelling) value)) spelling
      && length value == length spelling
    then ok name
    else otherwise

-- One arm of `match value.len()`: the names of that length in turn, then an extension.
check_header_names : Bytes → List HeaderName → Result HeaderName HeaderNameError
check_header_names value [] = to_extension value
check_header_names value (name ∷ names) =
    check_header_name value name (check_header_names value names)

-- The names that the arm for a length checks.
names_of_length : ℕ → List HeaderName
names_of_length n =
    if n == 3
    then via ∷ []
    else if n == 4
    then cseq ∷ date ∷ from ∷ mtag ∷ []
    else if n == 5
    then allow ∷ range ∷ scale ∷ speed ∷ []
    else if n == 6
    then accept ∷ public ∷ server ∷ []
    else if n == 7
    then expires ∷ require ∷ session ∷ []
    else if n == 8
    then if_match ∷ location ∷ referrer ∷ rtp_info ∷ []
    else if n == 9
    then bandwidth ∷ blocksize ∷ supported ∷ timestamp ∷ transport ∷ []
    else if n == 10
    then connection ∷ seek_style ∷ user_agent ∷ []
    else if n == 11
    then media_range ∷ retry_after ∷ unsupported ∷ []
    else if n == 12
    then content_base ∷ content_type ∷ []
    else if n == 13
    then accept_ranges ∷ authorization ∷ cache_control ∷ if_none_match ∷ last_modified
      ∷ notify_reason ∷ proxy_require ∷ []
    else if n == 14
    then content_length ∷ request_status ∷ []
    else if n == 15
    then accept_encoding ∷ accept_language ∷ proxy_supported ∷ []
    else if n == 16
    then content_encoding ∷ content_language ∷ content_location ∷ media_properties
      ∷ terminate_reason ∷ www_authenticate ∷ []
    else if n == 17
    then if_modified_since ∷ []
    else if n == 18
    then accept_credentials ∷ pipelined_requests ∷ proxy_authenticate ∷ []
    else if n == 19
    then authentication_info ∷ proxy_authorization ∷ []
    else if n == 22
    then connection_credentials ∷ []
    else if n == 25
    then proxy_authentication_info ∷ []
    else []

pub try_from : Bytes → Result HeaderName HeaderNameError
try_from value = check_header_names value (names_of_length (length value))

-- The string that equality of extensions compares.
extension_of : HeaderName → Option Bytes
extension_of (extension name lowercase) = some lowercase
extension_of _ = none

-- The derived `PartialEq`, with that of `ExtensionHeaderName`: two extensions are compared by
-- `eq_ignore_ascii_case`, and two standard names are one variant if they have one spelling.
unfoldable pub name_eq : HeaderName → HeaderName → Bool
unfolding extension_of as_str bytes_eq to_ascii_lowercase
name_eq a b = elim (extension_of a) [
  | some x ↦ elim (extension_of b) [
    | some y ↦ bytes_eq (map to_ascii_lowercase x) (map to_ascii_lowercase y)
    | none ↦ false
  ]
  | none ↦ elim (extension_of b) [ some y ↦ false | none ↦ bytes_eq (as_str a) (as_str b) ]
]
