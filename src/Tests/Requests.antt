-- ===== src/Tests/Requests.antt =====
-- A request for the runs of the tasks of a connection.
use rtsp_rs.Prelude.{Bytes, bytes, [], ◌∷◌}
use rtsp_rs.Method
use rtsp_rs.Version
use rtsp_rs.Header.Name
use rtsp_rs.Header.Map.{Pairs}
use rtsp_rs.Request.{Request}

abbrev pub TestRequest : Type 0
TestRequest = Request Bytes Pairs Bytes

abbrev pub numbered : Bytes → TestRequest
numbered cseq = record {
  body = [];
  headers = (Name.cseq, record { text = cseq }) ∷ [];
  method = Method.options;
  uri = bytes "*";
  version = Version.rtsp2_0;
}
