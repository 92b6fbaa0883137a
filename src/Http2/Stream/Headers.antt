-- ===== src/Http2/Stream/Headers.antt =====
-- The headers and pseudo-headers of a stream (pkg/http2/stream.go).
use gtest.Common.{
  ◌≡◌, refl, sym, ◌∙◌, ap, List, [], ◌∷◌, ◌++◌, append-nil, append_assoc, if◌then◌else◌, Bytes,
  codes, bytes_eq, bytes_eq_iff, arith,
}
use gtest.Hpack.Static.{HeaderField, field}
use gtest.Http2.Stream.{Stream, add_req_header, add_resp_header, set_pseudo}

-- The loops of `handleHeaders` over the decoded fields.
unfoldable pub add_req_headers : Stream → List HeaderField → Stream
add_req_headers s [] = s
add_req_headers s (hf ∷ hs) = add_req_headers (add_req_header s hf.name hf.value) hs

unfoldable pub add_resp_headers : Stream → List HeaderField → Stream
add_resp_headers s [] = s
add_resp_headers s (hf ∷ hs) = add_resp_headers (add_resp_header s hf.name hf.value) hs

-- The value of the last field of a name, or what was there.
unfoldable pub last_value : Bytes → Bytes → List HeaderField → Bytes
last_value n old [] = old
last_value n old (hf ∷ hs) = last_value n (if bytes_eq hf.name n then hf.value else old) hs

abbrev pub plain : List HeaderField → List HeaderField
plain [] = []
plain (hf ∷ hs) = field hf.name hf.value ∷ plain hs

-- What four strings of a stream say of the request.
pub record Request : Type 0 where
  pub method : Bytes
  pub path : Bytes
  pub scheme : Bytes
  pub authority : Bytes

abbrev pub request : Stream → Request
request s = record { method = s.method; path = s.path; scheme = s.scheme; authority = s.authority }

abbrev pub updated : Request → List HeaderField → Request
updated r hs = record {
  method = last_value (codes ":method") r.method hs;
  path = last_value (codes ":path") r.path hs;
  scheme = last_value (codes ":scheme") r.scheme hs;
  authority = last_value (codes ":authority") r.authority hs;
}

-- The four names differ, so a field sets at most one string.
set_pseudo-request :
    (s : Stream) (hf : HeaderField)
    → request (add_req_header s hf.name hf.value) ≡ updated (request s) (hf ∷ [])
unfolding add_req_header set_pseudo last_value
set_pseudo-request s hf = ground (
  arith,
  bytes_eq_iff hf.name (codes ":method"),
  bytes_eq_iff hf.name (codes ":path"),
  bytes_eq_iff hf.name (codes ":scheme"),
  bytes_eq_iff hf.name (codes ":authority"),
)

add_req_header-req_headers :
    (s : Stream) (n v : Bytes)
    → (add_req_header s n v).req_headers ≡ s.req_headers ++ (field n v ∷ [])
unfolding add_req_header set_pseudo
add_req_header-req_headers s n v = ground arith

-- After a list of fields each pseudo-header string is the last value of its name, and the fields
-- stand behind the old ones in order.
pub add_req_headers_lem :
    (s : Stream) (hs : List HeaderField)
    → (request (add_req_headers s hs) ≡ updated (request s) hs)
      × ((add_req_headers s hs).req_headers ≡ s.req_headers ++ plain hs)
unfolding add_req_headers last_value
add_req_headers_lem s [] = (refl, sym (append-nil s.req_headers))
add_req_headers_lem s (hf ∷ hs) =
    let s' = add_req_header s hf.name hf.value in
    let (pseudo, fields) = add_req_headers_lem s' hs in
    (
      pseudo ∙ ap (λ (r : Request). updated r hs) (set_pseudo-request s hf),
      fields
          ∙ rw (add_req_header-req_headers s hf.name hf.value)
              (append_assoc s.req_headers (field hf.name hf.value ∷ []) (plain hs)),
    )
