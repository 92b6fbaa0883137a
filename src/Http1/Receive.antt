-- ===== src/Http1/Receive.antt =====
-- `RxReq` and `RxResp` of pkg/http1/rxreq.go and pkg/http1/rxresp.go.
use gtest.Common.{
  Bool, true, ◌||◌, [], Option, none, some, ltb, ◌==◌, if◌then◌else◌, Bytes, codes, bytes_eq,
  length, ℤ, pos, negsuc, Result, ok, err,
}
use gtest.Common.Texts.{cut}
use gtest.Common.Numerals.{atoi}
use gtest.Http1.Input.{
  HttpError, bad_request_line, bad_status_line, bad_status, Reader, pure, ◌>>=◌, or_fail, read_line,
}
use gtest.Http1.{Http, reset_request, reset_response, read_headers, read_body}

-- `SplitN(line, " ", 3)`: the first two parts, and the third where there are two spaces.
abbrev pub with_third :
    Bytes → Bytes → Option (Bytes × Bytes) → Option (Bytes × Bytes × Option Bytes)
with_third a b none = some (a, b, none)
with_third a b (some (c, d)) = some (a, c, some d)

abbrev pub with_second : Option (Bytes × Bytes) → Option (Bytes × Bytes × Option Bytes)
with_second none = none
with_second (some (a, b)) = with_third a b (cut b' ' b)

-- `none` where the line has no space.
unfoldable pub split_line : Bytes → Option (Bytes × Bytes × Option Bytes)
split_line line = with_second (cut b' ' line)

unfoldable pub request_line : Bytes → Option (Bytes × Bytes × Bytes)
unfolding split_line
request_line line = elim (split_line line) [
  | none ↦ none
  | some (method, url, third) ↦ elim third [ none ↦ none | some proto ↦ some (method, url, proto) ]
]

-- What a message fills in, and the input that is left. An error is what `RxReq` returns, and the
-- session that it leaves is not modelled.
unfoldable pub rx_req_from : Http → Reader Http
unfolding read_line read_headers read_body request_line
rx_req_from h = do
  line ← read_line
  parts ← or_fail bad_request_line (request_line line)
  headers ← read_headers
  body ← read_body headers
  pure (record h {
    method = parts.0;
    url = parts.1;
    proto = parts.2;
    head_method = bytes_eq parts.0 (codes "HEAD");
    req_headers = headers;
    body = body;
    body_len = length body;
  })

abbrev pub left : Result HttpError Http × Bytes → Result HttpError Http
left (ok h, rest) = ok (record h { received = rest })
left (err e, rest) = err e

unfoldable pub rx_req : Http → Result HttpError Http
unfolding rx_req_from
rx_req h = left (rx_req_from (reset_request h) h.received)

-- The status line: protocol, status and reason, which may be missing.
abbrev pub reason_or_none : Option Bytes → Bytes
reason_or_none none = []
reason_or_none (some r) = r

-- A status below 200, 204 and 304 have no body.
unfoldable pub has_no_body : ℤ → Bool
has_no_body (negsuc n) = true
has_no_body (pos n) = ltb n 200 || n == 204 || n == 304

unfoldable pub rx_resp_from : Bool → Http → Reader Http
unfolding read_line read_headers read_body split_line has_no_body
rx_resp_from no_obj h = do
  line ← read_line
  parts ← or_fail bad_status_line (split_line line)
  status ← or_fail bad_status (atoi parts.1)
  headers ← read_headers
  body ← (if no_obj || h.head_method || has_no_body status then pure [] else read_body headers)
  pure (record h {
    proto = parts.0;
    status = status;
    reason = reason_or_none parts.2;
    resp_headers = headers;
    body = body;
    body_len = length body;
  })

unfoldable pub rx_resp : Bool → Http → Result HttpError Http
unfolding rx_resp_from
rx_resp no_obj h = left (rx_resp_from no_obj (reset_response h) h.received)
