-- ===== src/Status.antt =====
-- rtsp-2/src/status.rs: status codes, their numbers and reason phrases, and their decoding.
pub mod Digits
use rtsp_rs.Prelude.{
  ℕ, ◌+◌, ◌-◌, ◌*◌, ◌%◌, ◌||◌, ◌&&◌, [], ◌∷◌, ◌==◌, leb, ltb, if◌then◌else◌, Bool, true, false,
  Bytes, bytes, Option, none, some, Result, ok, err,
}

-- `StatusCode::OK` is `okay`.
pub data StatusCode : Type 0 where
  continue okay moved_permanently found not_modified use_proxy bad_request unauthorized
        payment_required forbidden not_found method_not_allowed not_acceptable
        proxy_authentication_required request_timeout gone precondition_failed
        request_message_body_too_large request_uri_too_long unsupported_media_type
        parameter_not_understood not_enough_bandwidth session_not_found
        method_not_valid_in_this_state header_field_not_valid_for_resource invalid_range
        parameter_is_read_only aggregate_operation_not_allowed only_aggregate_operation_allowed
        unsupported_transport destination_unreachable destination_prohibited
        data_transport_not_ready_yet notification_reason_unknown key_management_error
        connection_authorization_required connection_credentials_not_accepted
        failure_to_establish_secure_connection internal_server_error not_implemented bad_gateway
        service_unavailable gateway_timeout rtsp_version_not_supported option_not_supported
        proxy_unavailable :
      StatusCode
  extension : ℕ → StatusCode

pub data StatusCodeError : Type 0 where
  invalid out_of_range removed : StatusCodeError

pub data StatusCodeClass : Type 0 where
  informational success redirection client_error server_error : StatusCodeClass

unfoldable pub canonical_reason : StatusCode → Option Bytes
canonical_reason continue = some (bytes "Continue")
canonical_reason okay = some (bytes "OK")
canonical_reason moved_permanently = some (bytes "Moved Permanently")
canonical_reason found = some (bytes "Found")
canonical_reason not_modified = some (bytes "Not Modified")
canonical_reason use_proxy = some (bytes "Use Proxy")
canonical_reason bad_request = some (bytes "Bad Request")
canonical_reason unauthorized = some (bytes "Unauthorized")
canonical_reason payment_required = some (bytes "Payment Required")
canonical_reason forbidden = some (bytes "Forbidden")
canonical_reason not_found = some (bytes "Not Found")
canonical_reason method_not_allowed = some (bytes "Method Not Allowed")
canonical_reason not_acceptable = some (bytes "Not Acceptable")
canonical_reason proxy_authentication_required = some (bytes "Proxy Authentication Required")
canonical_reason request_timeout = some (bytes "Request Timeout")
canonical_reason gone = some (bytes "Gone")
canonical_reason precondition_failed = some (bytes "Precondition Failed")
canonical_reason request_message_body_too_large = some (bytes "Request Message Body Too Large")
canonical_reason request_uri_too_long = some (bytes "Request-URI Too Long")
canonical_reason unsupported_media_type = some (bytes "Unsupported Media Type")
canonical_reason parameter_not_understood = some (bytes "Parameter Not Understood")
canonical_reason not_enough_bandwidth = some (bytes "Not Enough Bandwidth")
canonical_reason session_not_found = some (bytes "Session Not Found")
canonical_reason method_not_valid_in_this_state = some (bytes "Method Not Valid in This State")
canonical_reason header_field_not_valid_for_resource =
    some (bytes "Header Field Not Valid for Resource")
canonical_reason invalid_range = some (bytes "Invalid Range")
canonical_reason parameter_is_read_only = some (bytes "Parameter Is Read-Only")
canonical_reason aggregate_operation_not_allowed = some (bytes "Aggregate Operation Not Allowed")
canonical_reason only_aggregate_operation_allowed = some (bytes "Only Aggregate Operation Allowed")
canonical_reason unsupported_transport = some (bytes "Unsupported Transport")
canonical_reason destination_unreachable = some (bytes "Destination Unreachable")
canonical_reason destination_prohibited = some (bytes "Destination Prohibited")
canonical_reason data_transport_not_ready_yet = some (bytes "Data Transport Not Ready Yet")
canonical_reason notification_reason_unknown = some (bytes "Notification Reason Unknown")
canonical_reason key_management_error = some (bytes "Key Management Error")
canonical_reason connection_authorization_required =
    some (bytes "Connection Authorization Required")
canonical_reason connection_credentials_not_accepted =
    some (bytes "Connection Credentials Not Accepted")
canonical_reason failure_to_establish_secure_connection =
    some (bytes "Failure to Establish Secure Connection")
canonical_reason internal_server_error = some (bytes "Internal Server Error")
canonical_reason not_implemented = some (bytes "Not Implemented")
canonical_reason bad_gateway = some (bytes "Bad Gateway")
canonical_reason service_unavailable = some (bytes "Service Unavailable")
canonical_reason gateway_timeout = some (bytes "Gateway Timeout")
canonical_reason rtsp_version_not_supported = some (bytes "RTSP Version Not Supported")
canonical_reason option_not_supported = some (bytes "Option Not Supported")
canonical_reason proxy_unavailable = some (bytes "Proxy Unavailable")
canonical_reason (extension code) = none

-- `u16::from`.
unfoldable pub to_code : StatusCode → ℕ
to_code continue = 100
to_code okay = 200
to_code moved_permanently = 301
to_code found = 302
to_code not_modified = 304
to_code use_proxy = 305
to_code bad_request = 400
to_code unauthorized = 401
to_code payment_required = 402
to_code forbidden = 403
to_code not_found = 404
to_code method_not_allowed = 405
to_code not_acceptable = 406
to_code proxy_authentication_required = 407
to_code request_timeout = 408
to_code gone = 410
to_code precondition_failed = 412
to_code request_message_body_too_large = 413
to_code request_uri_too_long = 414
to_code unsupported_media_type = 415
to_code parameter_not_understood = 451
to_code not_enough_bandwidth = 453
to_code session_not_found = 454
to_code method_not_valid_in_this_state = 455
to_code header_field_not_valid_for_resource = 456
to_code invalid_range = 457
to_code parameter_is_read_only = 458
to_code aggregate_operation_not_allowed = 459
to_code only_aggregate_operation_allowed = 460
to_code unsupported_transport = 461
to_code destination_unreachable = 462
to_code destination_prohibited = 463
to_code data_transport_not_ready_yet = 464
to_code notification_reason_unknown = 465
to_code key_management_error = 466
to_code connection_authorization_required = 470
to_code connection_credentials_not_accepted = 471
to_code failure_to_establish_secure_connection = 472
to_code internal_server_error = 500
to_code not_implemented = 501
to_code bad_gateway = 502
to_code service_unavailable = 503
to_code gateway_timeout = 504
to_code rtsp_version_not_supported = 505
to_code option_not_supported = 551
to_code proxy_unavailable = 553
to_code (extension code) = code

-- The `match` of `TryFrom<u16>`: its arms below 451, and those from 451.
named_from_451 : ℕ → StatusCode
named_from_451 value =
    if value == 451
    then parameter_not_understood
    else if value == 453
    then not_enough_bandwidth
    else if value == 454
    then session_not_found
    else if value == 455
    then method_not_valid_in_this_state
    else if value == 456
    then header_field_not_valid_for_resource
    else if value == 457
    then invalid_range
    else if value == 458
    then parameter_is_read_only
    else if value == 459
    then aggregate_operation_not_allowed
    else if value == 460
    then only_aggregate_operation_allowed
    else if value == 461
    then unsupported_transport
    else if value == 462
    then destination_unreachable
    else if value == 463
    then destination_prohibited
    else if value == 464
    then data_transport_not_ready_yet
    else if value == 465
    then notification_reason_unknown
    else if value == 466
    then key_management_error
    else if value == 470
    then connection_authorization_required
    else if value == 471
    then connection_credentials_not_accepted
    else if value == 472
    then failure_to_establish_secure_connection
    else if value == 500
    then internal_server_error
    else if value == 501
    then not_implemented
    else if value == 502
    then bad_gateway
    else if value == 503
    then service_unavailable
    else if value == 504
    then gateway_timeout
    else if value == 505
    then rtsp_version_not_supported
    else if value == 551
    then option_not_supported
    else if value == 553
    then proxy_unavailable
    else extension value

named : ℕ → StatusCode
named value =
    if value == 100
    then continue
    else if value == 200
    then okay
    else if value == 301
    then moved_permanently
    else if value == 302
    then found
    else if value == 304
    then not_modified
    else if value == 305
    then use_proxy
    else if value == 400
    then bad_request
    else if value == 401
    then unauthorized
    else if value == 402
    then payment_required
    else if value == 403
    then forbidden
    else if value == 404
    then not_found
    else if value == 405
    then method_not_allowed
    else if value == 406
    then not_acceptable
    else if value == 407
    then proxy_authentication_required
    else if value == 408
    then request_timeout
    else if value == 410
    then gone
    else if value == 412
    then precondition_failed
    else if value == 413
    then request_message_body_too_large
    else if value == 414
    then request_uri_too_long
    else if value == 415
    then unsupported_media_type
    else named_from_451 value

-- `TryFrom<u16>`.
unfoldable pub try_from : ℕ → Result StatusCode StatusCodeError
unfolding named named_from_451
try_from value =
    if ltb value 100 || leb 600 value
    then err out_of_range
    else if value == 303 || value == 352
    then err removed
    else ok (named value)

-- `value[i].wrapping_sub(b'0')`.
abbrev pub digit : ℕ → ℕ
digit byte = (byte + 256 - b'0') % 256

-- `TryFrom<&[u8]>`.
unfoldable pub try_from_bytes : Bytes → Result StatusCode StatusCodeError
try_from_bytes (a ∷ b ∷ c ∷ []) = try_from (digit a * 100 + digit b * 10 + digit c)
try_from_bytes _ = err invalid

-- `none` where `class` panics.
unfoldable pub class : StatusCode → Option StatusCodeClass
class status =
    let code = to_code status in
    if leb 100 code && leb code 199
    then some informational
    else if leb 200 code && leb code 299
    then some success
    else if leb 300 code && leb code 399
    then some redirection
    else if leb 400 code && leb code 499
    then some client_error
    else if leb 500 code && leb code 599
    then some server_error
    else none

-- `PartialEq` of `StatusCode`, at `StatusCode::Continue`.
abbrev pub is_continue : StatusCode → Bool
is_continue continue = true
is_continue _ = false
