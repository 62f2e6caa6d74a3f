-- ===== src/Response.antt =====
-- rtsp-2/src/response.rs: responses and the builder that the decoder fills. A reason phrase is its
-- string.
use rtsp_rs.Prelude.{Bytes, Option, none, some, Result, ok, err, if◌then◌else◌, Bool, true, false}
use rtsp_rs.Header.Map.{HeaderMaps}
use rtsp_rs.Header.Name.{HeaderName}
use rtsp_rs.Header.Value.{HeaderValue}
use rtsp_rs.Status.{StatusCode, extension, okay, canonical_reason}
use rtsp_rs.Version.{Version, rtsp2_0, is_rtsp2_0}

pub record Response (Body Map : Type 0) : Type 0 where
  pub body : Body
  pub reason_phrase : Bytes
  pub headers : Map
  pub status_code : StatusCode
  pub version : Version

pub data ResponseError : Type 0 where
  missing_body missing_reason_phrase unsupported_version : ResponseError

pub record Builder (Body Map : Type 0) : Type 0 where
  pub body : Option Body
  pub custom_reason_phrase : Option Bytes
  pub headers : Map
  pub status_code : StatusCode
  pub version : Version

abbrev pub is_extension : StatusCode → Bool
is_extension (extension _) = true
is_extension _ = false

-- What `build` returns, or the panic of its `expect`.
pub data Built (Body Map : Type 0) : Type 0 where
  returned : Result (Response Body Map) ResponseError → Built Body Map
  panicked : Built Body Map

module _ {Body Map : Type 0} where
  -- `build` behind the choice of the reason phrase.
  unfoldable pub build_with : Builder Body Map → Bytes → Built Body Map
  build_with builder reason = elim builder.body [
    | none ↦ returned (err missing_body)
    | some body ↦
        if is_rtsp2_0 builder.version
        then returned (
            ok (record {
              body = body;
              reason_phrase = reason;
              headers = builder.headers;
              status_code = builder.status_code;
              version = builder.version;
            }))
        else returned (err unsupported_version)
  ]

  unfoldable pub build : Builder Body Map → Built Body Map
  unfolding build_with canonical_reason
  build builder =
      if is_extension builder.status_code
      then elim builder.custom_reason_phrase [
        | some reason ↦ build_with builder reason
        | none ↦ returned (err missing_reason_phrase)
      ]
      else elim (canonical_reason builder.status_code) [
        | some reason ↦ build_with builder reason
        | none ↦ panicked
      ]

  module _ (maps : HeaderMaps Map) where
    unfoldable pub new_builder : Builder Body Map
    new_builder = record {
      body = none;
      custom_reason_phrase = none;
      headers = maps.empty;
      status_code = okay;
      version = rtsp2_0;
    }

    abbrev pub with_header : HeaderName → HeaderValue → Builder Body Map → Builder Body Map
    with_header name value builder = record builder {
      headers = maps.append name value builder.headers;
    }
