-- ===== src/Request.antt =====
-- rtsp-2/src/request.rs: requests and the builder that the decoder fills.
use rtsp_rs.Prelude.{Option, none, some, Result, ok, err, ◌>>=◌, if◌then◌else◌}
use rtsp_rs.Header.Map.{HeaderMaps}
use rtsp_rs.Header.Name.{HeaderName}
use rtsp_rs.Header.Value.{HeaderValue}
use rtsp_rs.Method.{Method}
use rtsp_rs.Version.{Version, rtsp2_0, is_rtsp2_0}

pub record Request (Body Map Uri : Type 0) : Type 0 where
  pub body : Body
  pub headers : Map
  pub method : Method
  pub uri : Uri
  pub version : Version

pub data RequestError : Type 0 where
  missing_body missing_method missing_uri unsupported_version : RequestError

pub record Builder (Body Map Uri : Type 0) : Type 0 where
  pub body : Option Body
  pub headers : Map
  pub method : Option Method
  pub uri : Option Uri
  pub version : Version

-- `Option::ok_or`.
abbrev ok_or : {A : Type 0} → Option A → RequestError → Result A RequestError
ok_or none e = err e
ok_or (some a) e = ok a

module _ {Body Map Uri : Type 0} where
  -- The check of the version, which comes behind those of the parts.
  checked_version :
      Builder Body Map Uri → Request Body Map Uri → Result (Request Body Map Uri) RequestError
  checked_version builder request =
      if is_rtsp2_0 builder.version then ok request else err unsupported_version

  unfoldable pub build : Builder Body Map Uri → Result (Request Body Map Uri) RequestError
  unfolding checked_version
  build builder = do
    method ← ok_or builder.method missing_method
    uri ← ok_or builder.uri missing_uri
    body ← ok_or builder.body missing_body
    checked_version builder (record {
      body = body;
      headers = builder.headers;
      method = method;
      uri = uri;
      version = builder.version;
    })

  module _ (maps : HeaderMaps Map) where
    unfoldable pub new_builder : Builder Body Map Uri
    new_builder = record {
      body = none;
      headers = maps.empty;
      method = none;
      uri = none;
      version = rtsp2_0;
    }

    abbrev pub with_header : HeaderName → HeaderValue → Builder Body Map Uri → Builder Body Map Uri
    with_header name value builder = record builder {
      headers = maps.append name value builder.headers;
    }
