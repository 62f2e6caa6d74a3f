-- ===== src/Tests.antt =====
-- Runs of the model at concrete inputs.
mod Requests
mod Connection
mod Outgoing
mod Decoding
mod Roundtrip
mod Messages
mod Pending
mod Sessions
use rtsp_rs.Prelude.{
  ◌↔◌, ◌≢◌, ◌*◌, none, ◌%◌, ◌+◌, ◌<◌, ◌≤◌, ◌≡◌, refl, Bytes, bytes, [], ◌∷◌, ◌++◌, some, Result, ok,
  err, map, to_ascii_uppercase, to_ascii_lowercase, if◌then◌else◌, bytes_eq, arith,
}
use rtsp_rs.Method
use rtsp_rs.Method.Cases.{try_from-to_ascii_uppercase, try_from-as_str, try_from_foo}
use rtsp_rs.Header.Name
use rtsp_rs.Header.Name.Cases.{Same, try_from-Same, try_from-canonical_name, try_from_cseq}
use rtsp_rs.Header.CSeq
use rtsp_rs.Header.CSeq.Arithmetic.{decode-encode, decode-le, add_lem, sub-add}
use rtsp_rs.Status
use rtsp_rs.Status.Digits.{to_code-try_from, try_from_bytes_lem, is_standard, try_from-to_code}
use rtsp_rs.Version
use rtsp_rs.Version.Decoding.{try_decode-as_encoded}

sub-add_example :
    (999_999_990 + 15 ≤ 999_999_999 → CSeq.sub (CSeq.add 999_999_990 15) 999_999_990 ≡ 15)
    × (999_999_999 < 999_999_990 + 15 → CSeq.sub (CSeq.add 999_999_990 15) 999_999_990 + 1 ≡ 15)
sub-add_example = sub-add 999_999_990 15 (omega arith) (omega arith)

decode-encode_example : CSeq.decode (CSeq.encode 4712) ≡ ok (some 4712)
decode-encode_example = decode-encode 4712 (omega arith)

add_lem_example :
    (CSeq.add 999_999_990 15 ≤ CSeq.max_cseq)
    × (CSeq.add 999_999_990 15 ≡ (999_999_990 + 15) % (CSeq.max_cseq + 1))
    × (CSeq.wrapping_increment 999_999_990 ≡ CSeq.add 999_999_990 1)
add_lem_example = add_lem 999_999_990 15 (omega arith) (omega arith)

try_from-to_ascii_uppercase_example :
    Method.try_from (map to_ascii_uppercase (bytes "pLaY")) ≡ Method.try_from (bytes "pLaY")
try_from-to_ascii_uppercase_example = try_from-to_ascii_uppercase (bytes "pLaY")

try_from-as_str_example :
    Method.try_from (Method.as_str (Method.extension (bytes "FOO")))
    ≡ ok (Method.extension (bytes "FOO"))
try_from-as_str_example =
    try_from-as_str (bytes "foo") (Method.extension (bytes "FOO")) try_from_foo

try_from-Same_example :
    Same (Name.try_from (bytes "CSeq")) (Name.try_from (map to_ascii_lowercase (bytes "CSeq")))
try_from-Same_example = try_from-Same (bytes "CSeq")

try_from-canonical_name_example : Name.try_from (Name.canonical_name Name.cseq) ≡ ok Name.cseq
try_from-canonical_name_example = try_from-canonical_name (bytes "cseq") Name.cseq try_from_cseq

try_from_bytes_lem_example :
    (Status.try_from_bytes ((1 + b'0') ∷ (0 + b'0') ∷ (0 + b'0') ∷ [])
      ≡ Status.try_from (1 * 100 + 0 * 10 + 0))
    × (Status.try_from_bytes ((1 + b'0') ∷ (0 + 10 + b'0') ∷ (0 + b'0') ∷ [])
        ≡ Status.try_from ((1 + 1) * 100 + 0 * 10 + 0))
try_from_bytes_lem_example = try_from_bytes_lem 1 0 0 (omega arith) (omega arith) (omega arith)

try_from-to_code_example : Status.try_from (Status.to_code Status.not_found) ≡ ok Status.not_found
try_from-to_code_example = try_from-to_code Status.not_found refl
