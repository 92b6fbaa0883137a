-- ===== src/Http2/Commands/Expect.antt =====
-- `Expect` of pkg/http2/commands.go: fields of a stream and the operators that compare them.
use gtest.Common.{
  ℕ, Bool, true, false, not, List, [], Option, none, some, if◌then◌else◌, Bytes, codes, bytes_eq,
  length, drop, ℤ, Result, ok, err,
}
use gtest.Common.Numerals.{decimal, atoi}
use gtest.Common.Strings.{has_prefix, contains}
use gtest.Common.Texts.{cut}
use gtest.Hpack.Static.{HeaderField}
use gtest.Http1.Expect.{int_less}
use gtest.Http2.Stream.{Stream, get, get_header}
use gtest.Http2.Conn.{Conn}
use gtest.Http2.Commands.{
  ExpectFailure, invalid_format, invalid_prefix, not_numeric, unknown_operator, expect_failed,
  failed_expect, Commanded, failed, done, on_stream,
}

-- A header behind "http.", and nothing under any other name.
unfoldable pub header_value : List HeaderField → Bytes → Bytes
header_value hs name = if has_prefix name (codes "http.") then get_header hs (drop 5 name) else []

unfoldable pub get_req_field : Stream → Bytes → Bytes
get_req_field s name =
    if bytes_eq name (codes "method")
    then s.method
    else if bytes_eq name (codes "path")
    then s.path
    else if bytes_eq name (codes "scheme")
    then s.scheme
    else if bytes_eq name (codes "authority")
    then s.authority
    else if bytes_eq name (codes "body")
    then s.req_body
    else if bytes_eq name (codes "bodylen")
    then decimal (length s.req_body)
    else header_value s.req_headers name

unfoldable pub get_resp_field : Stream → Bytes → Bytes
get_resp_field s name =
    if bytes_eq name (codes "status")
    then s.status
    else if bytes_eq name (codes "body")
    then s.resp_body
    else if bytes_eq name (codes "bodylen")
    then decimal (length s.resp_body)
    else header_value s.resp_headers name

-- `Split` at the dots, the first part and the others joined again: a cut at the first dot.
abbrev pub split_value : Stream → Option (Bytes × Bytes) → Result ExpectFailure Bytes
split_value s none = err invalid_format
split_value s (some (side, name)) =
    if bytes_eq side (codes "req")
    then ok (get_req_field s name)
    else if bytes_eq side (codes "resp")
    then ok (get_resp_field s name)
    else err invalid_prefix

unfoldable pub field_value : Stream → Bytes → Result ExpectFailure Bytes
unfolding cut
field_value s name = split_value s (cut b'.' name)

-- `nil` or the failure.
abbrev pub passed_if : Bool → Option ExpectFailure
passed_if true = none
passed_if false = some expect_failed

-- The numbers are read before the operator is looked at.
abbrev pub compare_numbers : Bytes → Option ℤ → Option ℤ → Option ExpectFailure
compare_numbers op (some a) (some b) =
    if bytes_eq op (codes "<")
    then passed_if (int_less a b)
    else if bytes_eq op (codes ">")
    then passed_if (int_less b a)
    else if bytes_eq op (codes "<=")
    then passed_if (not (int_less b a))
    else if bytes_eq op (codes ">=")
    then passed_if (not (int_less a b))
    else some unknown_operator
compare_numbers op _ _ = some not_numeric

unfoldable pub compare : Bytes → Bytes → Bytes → Option ExpectFailure
compare actual op expected =
    if bytes_eq op (codes "==")
    then passed_if (bytes_eq actual expected)
    else if bytes_eq op (codes "!=")
    then passed_if (not (bytes_eq actual expected))
    else if bytes_eq op (codes "~")
    then passed_if (contains actual expected)
    else if bytes_eq op (codes "!~")
    then passed_if (not (contains actual expected))
    else compare_numbers op (atoi actual) (atoi expected)

abbrev pub compared : Bytes → Bytes → Result ExpectFailure Bytes → Option ExpectFailure
compared op expected (err e) = some e
compared op expected (ok actual) = compare actual op expected

abbrev pub answered : Conn → Option ExpectFailure → Commanded
answered c none = (c, done)
answered c (some e) = (c, failed (failed_expect e))

unfoldable pub expect : Conn → ℕ → Bytes → Bytes → Bytes → Commanded
expect c i field op expected =
    on_stream c (get c.streams i) (λ s. answered c (compared op expected (field_value s field)))
