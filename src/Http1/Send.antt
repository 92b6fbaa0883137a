-- ===== src/Http1/Send.antt =====
-- `TxReq` and `TxResp` of pkg/http1/txreq.go and pkg/http1/txresp.go. A map of headers is written in
-- the order of its list. The connection takes every byte.
use gtest.Common.{
  ℕ, zero, suc, ◌+◌, ◌%◌, Bool, true, false, not, ◌&&◌, List, [], ◌∷◌, ◌++◌, map, Option, none,
  some, ltb, ◌==◌, if◌then◌else◌, Bytes, codes, bytes_eq, length, ℤ, pos, negsuc, Result, ok, err,
}
use gtest.Common.Maps.{lookup, insert, bytes_key, number_key}
use gtest.Common.Numerals.{decimal, hex}
use gtest.Http1.Input.{HttpError, gzip_failed}
use gtest.Http1.{Http, reset_request, reset_response}

abbrev pub Headers : Type 0
Headers = List (Bytes × Bytes)

abbrev pub crlf : Bytes
crlf = b'\r' ∷ b'\n' ∷ []

-- `none` for a body is `nil`.
pub record TxReqOptions : Type 0 where
  pub method : Bytes
  pub url : Bytes
  pub proto : Bytes
  pub headers : Headers
  pub body : Option Bytes
  pub body_len : ℤ
  pub chunked : Bool
  pub gzip : Bool
  pub no_host : Bool
  pub no_user_agent : Bool

pub record TxRespOptions : Type 0 where
  pub status : ℤ
  pub reason : Bytes
  pub proto : Bytes
  pub headers : Headers
  pub body : Option Bytes
  pub body_len : ℤ
  pub chunked : Bool
  pub gzip : Bool
  pub no_len : Bool
  pub no_server : Bool

-- `GenerateBody`: the loop at index `i` with the byte `k`, for as many bytes as are left.
abbrev pub next_byte : ℕ → ℕ
next_byte k = let k' = (k + 1) % 256 in if ltb b'~' k' then b'!' else k'

unfoldable pub generate_from : Bool → ℕ → ℕ → ℕ → Bytes
generate_from random zero i k = []
generate_from random (suc n) i k =
    let k' = if random then (b'!' + i % 72 % 256) % 256 else k in
    if i % 64 == 63
    then b'\n' ∷ generate_from random n (i + 1) k
    else k' ∷ generate_from random n (i + 1) (next_byte k')

unfoldable pub generate_body : ℕ → Bool → Bytes
generate_body n random = generate_from random n 0 b'!'

-- The body to send, which is made where only a length is given.
abbrev pub body_or_generated : Option Bytes → ℤ → Bytes
body_or_generated (some body) n = body
body_or_generated none (pos n) = generate_body n false
body_or_generated none (negsuc n) = []

abbrev pub default_to : Bytes → Bytes → Bytes
default_to d [] = d
default_to d (c ∷ cs) = c ∷ cs

-- A default for a header that is not in the map.
abbrev pub or_present : Headers → Option Bytes → Headers → Headers
or_present added none m = added
or_present added (some v) m = m

abbrev pub add_default : Bool → Bytes → Bytes → Headers → Headers
add_default wanted n v m = if wanted then or_present (insert n v m) (lookup n m) m else m

-- The `%s: %s` of a header.
abbrev pub header_line : Bytes × Bytes → Bytes
header_line (n, v) = n ++ (b':' ∷ b' ' ∷ v)

unfoldable pub header_lines : List Bytes → Bytes
header_lines [] = []
header_lines (l ∷ ls) = l ++ (crlf ++ header_lines ls)

-- `sendChunked`: one chunk, and the last one.
unfoldable pub send_chunked : Bytes → Bytes
send_chunked body = hex (length body) ++ (crlf ++ (body ++ (crlf ++ (b'0' ∷ (crlf ++ crlf)))))

-- Start line, header lines, the framing header if there is one, an empty line, and the body.
abbrev pub message : Bytes → List Bytes → Bytes → Bytes
message start lines body = start ++ (crlf ++ (header_lines lines ++ (crlf ++ body)))

abbrev pub te_chunked : Bytes
te_chunked = codes "Transfer-Encoding: chunked"

abbrev pub cl_header : ℕ → Bytes
cl_header n = codes "Content-Length: " ++ decimal n

-- The table of `getDefaultReason`.
abbrev pub reasons : List (ℕ × Bytes)
reasons =
    (100, codes "Continue")
    ∷ (101, codes "Switching Protocols")
    ∷ (200, codes "OK")
    ∷ (201, codes "Created")
    ∷ (202, codes "Accepted")
    ∷ (204, codes "No Content")
    ∷ (206, codes "Partial Content")
    ∷ (301, codes "Moved Permanently")
    ∷ (302, codes "Found")
    ∷ (304, codes "Not Modified")
    ∷ (307, codes "Temporary Redirect")
    ∷ (308, codes "Permanent Redirect")
    ∷ (400, codes "Bad Request")
    ∷ (401, codes "Unauthorized")
    ∷ (403, codes "Forbidden")
    ∷ (404, codes "Not Found")
    ∷ (405, codes "Method Not Allowed")
    ∷ (408, codes "Request Timeout")
    ∷ (500, codes "Internal Server Error")
    ∷ (501, codes "Not Implemented")
    ∷ (502, codes "Bad Gateway")
    ∷ (503, codes "Service Unavailable")
    ∷ (504, codes "Gateway Timeout")
    ∷ []

abbrev pub reason_or_unknown : Option Bytes → Bytes
reason_or_unknown none = codes "Unknown"
reason_or_unknown (some r) = r

unfoldable pub default_reason : ℤ → Bytes
default_reason (negsuc n) = codes "Unknown"
default_reason (pos n) = reason_or_unknown (lookup n reasons)

-- `%d` of an int.
abbrev pub format_int : ℤ → Bytes
format_int (pos n) = decimal n
format_int (negsuc n) = b'-' ∷ decimal (suc n)

abbrev pub method_of : TxReqOptions → Bytes
method_of opts = default_to (codes "GET") opts.method

abbrev pub url_of : TxReqOptions → Bytes
url_of opts = default_to (codes "/") opts.url

abbrev pub proto_of : TxReqOptions → Bytes
proto_of opts = default_to (codes "HTTP/1.1") opts.proto

abbrev pub req_defaults : Http → TxReqOptions → Headers → Headers
req_defaults h opts m =
    add_default (not opts.no_user_agent) (codes "User-Agent") (default_to (codes "gvtest") h.name) (
      add_default (not opts.no_host && bytes_eq (proto_of opts) (codes "HTTP/1.1")) (codes "Host")
        (codes "localhost") m)

-- The framing header, and the bytes of the body.
abbrev pub req_framing : Bool → Bytes → List Bytes × Bytes
req_framing true body = (te_chunked ∷ [], send_chunked body)
req_framing false body = (if ltb 0 (length body) then cl_header (length body) ∷ [] else [], body)

abbrev pub write_req : Http → TxReqOptions → Bytes → List Bytes → Http
write_req h opts body lines =
    let start = method_of opts ++ (b' ' ∷ (url_of opts ++ (b' ' ∷ proto_of opts))) in
    let (framing, bytes) = req_framing opts.chunked body in
    record (reset_request h) {
      method = method_of opts;
      url = url_of opts;
      proto = proto_of opts;
      head_method = bytes_eq (method_of opts) (codes "HEAD");
      body = body;
      body_len = length body;
      req_headers = lines;
      sent = h.sent ++ message start (lines ++ framing) bytes;
    }

abbrev pub status_of : TxRespOptions → ℤ
status_of opts = elim opts.status [ pos ℕ.zero ↦ pos 200 | i ↦ i ]

abbrev pub reason_of : TxRespOptions → Bytes
reason_of opts = default_to (default_reason (status_of opts)) opts.reason

abbrev pub resp_proto_of : TxRespOptions → Bytes
resp_proto_of opts = default_to (codes "HTTP/1.1") opts.proto

abbrev pub resp_framing : Bool → Bool → Bytes → List Bytes × Bytes
resp_framing true no_len body = (te_chunked ∷ [], send_chunked body)
resp_framing false no_len body = (if no_len then [] else cl_header (length body) ∷ [], body)

abbrev pub write_resp : Http → TxRespOptions → Bytes → List Bytes → Http
write_resp h opts body lines =
    let start =
      resp_proto_of opts ++ (b' ' ∷ (format_int (status_of opts) ++ (b' ' ∷ reason_of opts))) in
    let (framing, bytes) = resp_framing opts.chunked opts.no_len body in
    record (reset_response h) {
      status = status_of opts;
      reason = reason_of opts;
      proto = resp_proto_of opts;
      body = body;
      body_len = length body;
      resp_headers = lines;
      sent = h.sent ++ message start (lines ++ framing) bytes;
    }

-- The body and the headers behind `opts.Gzip`.
abbrev pub encoded : Headers → Option Bytes → Result HttpError (Bytes × Headers)
encoded m none = err gzip_failed
encoded m (some z) = ok (z, insert (codes "Content-Encoding") (codes "gzip") m)

abbrev pub resp_defaults : Http → TxRespOptions → Headers → Headers
resp_defaults h opts m =
    add_default (not opts.no_server) (codes "Server") (default_to (codes "gvtest") h.name) m

abbrev pub send_req :
    Http → TxReqOptions → Result HttpError (Bytes × Headers) → Result HttpError Http
send_req h opts (err e) = err e
send_req h opts (ok (body, m)) =
    ok (write_req h opts body (map header_line (req_defaults h opts m)))

abbrev pub send_resp :
    Http → TxRespOptions → Result HttpError (Bytes × Headers) → Result HttpError Http
send_resp h opts (err e) = err e
send_resp h opts (ok (body, m)) =
    ok (write_resp h opts body (map header_line (resp_defaults h opts m)))

-- `gzip.Writer` at a level: `none` is an error.
module _ (compress : ℤ → Bytes → Option Bytes) where
  unfoldable pub prepare_body : ℤ → Bool → Bytes → Headers → Result HttpError (Bytes × Headers)
  prepare_body level gzip body m =
      if gzip && ltb 0 (length body) then encoded m (compress level body) else ok (body, m)

  unfoldable pub tx_req : Http → TxReqOptions → Result HttpError Http
  unfolding prepare_body generate_body
  tx_req h opts =
      send_req h opts (
        prepare_body h.gzip_level opts.gzip (body_or_generated opts.body opts.body_len)
          opts.headers)

  unfoldable pub tx_resp : Http → TxRespOptions → Result HttpError Http
  unfolding prepare_body generate_body default_reason
  tx_resp h opts =
      send_resp h opts (
        prepare_body h.gzip_level opts.gzip (body_or_generated opts.body opts.body_len)
          opts.headers)
