-- ===== src/Http2/Commands/Recording.antt =====
-- What a stream that is made for a request records of it (`TxReq` of pkg/http2/commands.go and
-- `handleHeaders` of pkg/http2/conn.go).
use gtest.Common.{
  ℕ, ◌≡◌, refl, sym, ap, ◌∙◌, Bool, false, List, [], ◌∷◌, map, if◌then◌else◌, Bytes, codes,
  bytes_eq, arith, All,
}
use gtest.Common.Strings.{has_prefix}
use gtest.Hpack.Static.{HeaderField, field}
use gtest.Hpack.RoundTrip.{pair}
use gtest.Http2.Stream.{
  Stream, set_pseudo, add_req_header, half_closed_remote, open_, next_state, new_stream,
  update_state, signal,
}
use gtest.Http2.Stream.Headers.{
  add_req_headers, add_req_headers_lem, plain, last_value, request, updated, Request,
}
use gtest.Http2.Conn.Handlers.{receive_headers, stream_name, add_headers, is_response}
use gtest.Http2.Commands.{TxReqOptions, req_fields, fields_of}

-- What a stream records depends only on the names and values of the fields.
plain-pair : (hs : List HeaderField) → plain hs ≡ map (λ p. field p.0 p.1) (map pair hs)
plain-pair [] = refl
plain-pair (hf ∷ hs) = ap (◌∷◌ (field hf.name hf.value)) (plain-pair hs)

pub same_plain : (gs hs : List HeaderField) → map pair gs ≡ map pair hs → plain gs ≡ plain hs
same_plain gs hs e =
    plain-pair gs ∙ ap (map (λ (p : Bytes × Bytes). field p.0 p.1)) e ∙ sym (plain-pair hs)

pub is_response-plain : (hs : List HeaderField) → is_response hs ≡ is_response (plain hs)
unfolding is_response
is_response-plain [] = refl
is_response-plain (hf ∷ hs) = rw (is_response-plain hs)

add_req_headers-plain :
    (s : Stream) (hs : List HeaderField) → add_req_headers s hs ≡ add_req_headers s (plain hs)
unfolding add_req_headers
add_req_headers-plain s [] = refl
add_req_headers-plain s (hf ∷ hs) = add_req_headers-plain (add_req_header s hf.name hf.value) hs

-- A regular header, which is no pseudo-header.
abbrev pub IsRegular : Bytes × Bytes → Type 0
IsRegular (n, v) = has_prefix n (codes ":") ≡ false

regular_name : (n p : Bytes) → has_prefix n (codes ":") ≡ false → bytes_eq n (b':' ∷ p) ≡ false
unfolding has_prefix bytes_eq
regular_name [] p h = refl
regular_name (c ∷ n) p h = ground arith

is_response-fields :
    (m : List (Bytes × Bytes)) → All IsRegular m → is_response (fields_of m) ≡ false
unfolding is_response
is_response-fields [] h = refl
is_response-fields ((n, v) ∷ m) (r, h) =
    rw (regular_name n (codes "status") r, is_response-fields m h)

last_value-fields :
    (p old : Bytes) (m : List (Bytes × Bytes))
    → All IsRegular m
    → last_value (b':' ∷ p) old (fields_of m) ≡ old
unfolding last_value
last_value-fields p old [] h = refl
last_value-fields p old ((n, v) ∷ m) (r, h) =
    rw (last_value, regular_name n p r) (last_value-fields p old m h)

plain-fields : (m : List (Bytes × Bytes)) → plain (fields_of m) ≡ fields_of m
plain-fields [] = refl
plain-fields ((n, v) ∷ m) = ap (◌∷◌ (field n v)) (plain-fields m)

plain-req : (o : TxReqOptions) → plain (req_fields o) ≡ req_fields o
plain-req o = rw (plain-fields o.headers)

is_response-req : (o : TxReqOptions) → All IsRegular o.headers → is_response (req_fields o) ≡ false
unfolding is_response bytes_eq
is_response-req o h = is_response-fields o.headers h

-- What the options say of the request.
abbrev pub request_of : TxReqOptions → Request
request_of o = record {
  method = o.method;
  path = o.path;
  scheme = o.scheme;
  authority = o.authority;
}

updated-req :
    (r : Request) (o : TxReqOptions)
    → All IsRegular o.headers
    → updated r (req_fields o) ≡ request_of o
unfolding last_value bytes_eq
updated-req r o h = rw (
  last_value-fields (codes "method") o.method o.headers h,
  last_value-fields (codes "path") o.path o.headers h,
  last_value-fields (codes "scheme") o.scheme o.headers h,
  last_value-fields (codes "authority") o.authority o.headers h,
)

-- A stream that is made for the request, once the headers are in.
abbrev pub taken : TxReqOptions → Bool → ℕ → Stream
taken o ends i =
    signal (update_state (add_req_headers (new_stream i (stream_name i)) (req_fields o)) ends false)

pub receive_headers-taken :
    (o : TxReqOptions) (got : List HeaderField) (ends : Bool) (i : ℕ)
    → All IsRegular o.headers
    → map pair got ≡ map pair (req_fields o)
    → receive_headers got ends (new_stream i (stream_name i)) ≡ taken o ends i
unfolding add_headers
receive_headers-taken o got ends i regular same =
    let s = new_stream i (stream_name i) in
    let bare : plain got ≡ req_fields o = same_plain got (req_fields o) same ∙ plain-req o in
    let request : is_response got ≡ false =
      is_response-plain got ∙ ap is_response bare ∙ is_response-req o regular in
    rw (request, add_req_headers-plain s got, bare)

pub taken_lem :
    (o : TxReqOptions) (ends : Bool) (i : ℕ)
    → All IsRegular o.headers
    → (request (taken o ends i) ≡ request_of o) × ((taken o ends i).req_headers ≡ req_fields o)
unfolding signal update_state new_stream
taken_lem o ends i regular =
    let (pseudo, fields) = add_req_headers_lem (new_stream i (stream_name i)) (req_fields o) in
    (pseudo ∙ updated-req (request (new_stream i (stream_name i))) o regular, fields ∙ plain-req o)

add_req_header-kept :
    (s : Stream) (n v : Bytes)
    → ((add_req_header s n v).state ≡ s.state) × ((add_req_header s n v).req_body ≡ s.req_body)
unfolding add_req_header set_pseudo
add_req_header-kept s n v = ground arith

add_req_headers-kept :
    (s : Stream) (hs : List HeaderField)
    → ((add_req_headers s hs).state ≡ s.state) × ((add_req_headers s hs).req_body ≡ s.req_body)
unfolding add_req_headers
add_req_headers-kept s [] = (refl, refl)
add_req_headers-kept s (hf ∷ hs) =
    let (state, body) = add_req_headers-kept (add_req_header s hf.name hf.value) hs in
    let (state', body') = add_req_header-kept s hf.name hf.value in (state ∙ state', body ∙ body')

pub taken_kept :
    (o : TxReqOptions) (ends : Bool) (i : ℕ)
    → ((taken o ends i).state ≡ (if ends then half_closed_remote else open_))
      × ((taken o ends i).req_body ≡ [])
unfolding signal update_state new_stream next_state
taken_kept o ends i =
    let (state, body) = add_req_headers-kept (new_stream i (stream_name i)) (req_fields o) in
    (rw state, body)
