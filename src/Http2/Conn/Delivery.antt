-- ===== src/Http2/Conn/Delivery.antt =====
-- What a HEADERS frame leaves on its stream (`handleHeaders` of pkg/http2/conn.go), by the header list
-- that the peer compressed.
use gtest.Common.{
  ℕ, ◌^◌, ◌<◌, ◌≡◌, ◌≢◌, refl, sym, ap, ◌∙◌, subst, ◌⊎◌, inl, inr, Bool, true, false, Bool-cases,
  List, [], ◌∷◌, ◌++◌, append-nil, append_assoc, map, none, some, if◌then◌else◌, Bytes, codes,
  bytes_eq, bytes_eq_iff, length, ok, arith, All,
}
use gtest.Hpack.Static.{HeaderField, field}
use gtest.Hpack.Table.Exact.{IsExact, HasRoom}
use gtest.Hpack.Encode.{Encoder, encode}
use gtest.Hpack.RoundTrip.{pair}
use gtest.Http2.Frame.{Frame, write_headers_frame, read_frame}
use gtest.Http2.Stream.{
  Stream, add_req_header, add_resp_header, set_pseudo, next_state, signal, update_state, get,
}
use gtest.Http2.Stream.Headers.{
  add_req_headers, add_resp_headers, add_req_headers_lem, last_value, plain, request, updated,
  Request,
}
use gtest.Http2.Commands.Recording.{same_plain, is_response-plain}
use gtest.Http2.Conn.{Conn}
use gtest.Http2.Conn.Handlers.{process_frame, receive_headers, add_headers, is_response}
use gtest.Http2.Conn.Sending.{target, process-write_headers_frame}

-- The fields of a request on a stream: each pseudo-header has the last value of its name, and all the
-- fields stand behind the ones that were there. The other strings, the bodies and the windows stay.
abbrev pub with_request : Stream → List HeaderField → Stream
with_request s hs = record s {
  method = last_value (codes ":method") s.method hs;
  path = last_value (codes ":path") s.path hs;
  scheme = last_value (codes ":scheme") s.scheme hs;
  authority = last_value (codes ":authority") s.authority hs;
  req_headers = s.req_headers ++ plain hs;
}

-- The fields of a response likewise.
abbrev pub with_response : Stream → List HeaderField → Stream
with_response s hs = record s {
  status = last_value (codes ":status") s.status hs;
  resp_headers = s.resp_headers ++ plain hs;
}

-- The state moves, and whoever waits for the stream is woken.
abbrev pub moved : Bool → Stream → Stream
moved ends s = record s { state = next_state s.state ends false; signalled = true }

-- No field is called ":status".
abbrev pub IsRequest : List HeaderField → Type 0
IsRequest = All (λ hf. hf.name ≢ codes ":status")

-- What the stream is then.
pub data IsDelivered (hs : List HeaderField) (ends : Bool) (old : Stream) : Stream → Type 0 where
  as_request : IsRequest hs → IsDelivered hs ends old (moved ends (with_request old hs))
  as_response : ¬ IsRequest hs → IsDelivered hs ends old (moved ends (with_response old hs))

-- The same four strings and headers, and everything else of the first stream.
abbrev recorded : Stream → Request → List HeaderField → Stream
recorded s r hs = record s {
  method = r.method;
  path = r.path;
  scheme = r.scheme;
  authority = r.authority;
  req_headers = hs;
}

add_req_header-recorded :
    (s : Stream) (n v : Bytes)
    → add_req_header s n v
      ≡ recorded s (request (add_req_header s n v)) (add_req_header s n v).req_headers
unfolding add_req_header set_pseudo
add_req_header-recorded s n v = ground arith

add_req_headers-recorded :
    (s : Stream) (hs : List HeaderField)
    → add_req_headers s hs
      ≡ recorded s (request (add_req_headers s hs)) (add_req_headers s hs).req_headers
unfolding add_req_headers
add_req_headers-recorded s [] = refl
add_req_headers-recorded s (hf ∷ hs) =
    let s' = add_req_header s hf.name hf.value in
    let rest = add_req_headers s' hs in
    add_req_headers-recorded s' hs
    ∙ ap (λ x. recorded x (request rest) rest.req_headers)
        (add_req_header-recorded s hf.name hf.value)

add_req_headers-with_request :
    (s : Stream) (hs : List HeaderField) → add_req_headers s hs ≡ with_request s hs
add_req_headers-with_request s hs =
    let (pseudo, fields) = add_req_headers_lem s hs in
    add_req_headers-recorded s hs
    ∙ ap (λ r. recorded s r (add_req_headers s hs).req_headers) pseudo
    ∙ ap (recorded s (updated (request s) hs)) fields

add_resp_header-with_response :
    (s : Stream) (hf : HeaderField) → add_resp_header s hf.name hf.value ≡ with_response s (hf ∷ [])
unfolding add_resp_header last_value
add_resp_header-with_response s hf = elim (Bool-cases (bytes_eq hf.name (codes ":status"))) [
  | inl e ↦ rw e
  | inr e ↦ rw e
]

add_resp_headers-with_response :
    (s : Stream) (hs : List HeaderField) → add_resp_headers s hs ≡ with_response s hs
unfolding add_resp_headers last_value
add_resp_headers-with_response s [] = rw (append-nil s.resp_headers)
add_resp_headers-with_response s (hf ∷ hs) =
    add_resp_headers-with_response (add_resp_header s hf.name hf.value) hs
    ∙ ap (λ x. with_response x hs) (add_resp_header-with_response s hf)
    ∙ rw (append_assoc s.resp_headers (field hf.name hf.value ∷ []) (plain hs))

last_value-plain :
    (n old : Bytes) (hs : List HeaderField) → last_value n old (plain hs) ≡ last_value n old hs
unfolding last_value
last_value-plain n old [] = refl
last_value-plain n old (hf ∷ hs) =
    last_value-plain n (if bytes_eq hf.name n then hf.value else old) hs

-- Fields with the same names and values do the same.
last_value_same :
    (n old : Bytes) (gs hs : List HeaderField)
    → plain gs ≡ plain hs
    → last_value n old gs ≡ last_value n old hs
last_value_same n old gs hs e =
    sym (last_value-plain n old gs) ∙ ap (last_value n old) e ∙ last_value-plain n old hs

with_request_same :
    (s : Stream) (gs hs : List HeaderField)
    → plain gs ≡ plain hs
    → with_request s gs ≡ with_request s hs
with_request_same s gs hs e = rw (
  last_value_same (codes ":method") s.method gs hs e,
  last_value_same (codes ":path") s.path gs hs e,
  last_value_same (codes ":scheme") s.scheme gs hs e,
  last_value_same (codes ":authority") s.authority gs hs e,
  e,
)

with_response_same :
    (s : Stream) (gs hs : List HeaderField)
    → plain gs ≡ plain hs
    → with_response s gs ≡ with_response s hs
with_response_same s gs hs e = rw (last_value_same (codes ":status") s.status gs hs e, e)

is_response-IsRequest :
    (hs : List HeaderField)
    → ((is_response hs ≡ false) × IsRequest hs) ⊎ ((is_response hs ≡ true) × ¬ IsRequest hs)
unfolding is_response
is_response-IsRequest [] = inl (refl, tt)
is_response-IsRequest (hf ∷ hs) = elim (Bool-cases (bytes_eq hf.name (codes ":status"))) [
  | inl e ↦
      let k : hf.name ≡ codes ":status" = (bytes_eq_iff hf.name (codes ":status")).0 e in
      inr (rw e, (λ h. absurd (h.0 k)))
  | inr e ↦
      let other : hf.name ≢ codes ":status" =
        λ k. let t = (bytes_eq_iff hf.name (codes ":status")).1 k in absurd cc in
      elim (is_response-IsRequest hs) [
        | inl (f, h) ↦ inl (rw (e, f), (other, h))
        | inr (t, h) ↦ inr (rw (e, t), (λ k. absurd (h k.1)))
      ]
]

receive_headers-IsDelivered :
    (gs hs : List HeaderField) (ends : Bool) (s : Stream)
    → map pair gs ≡ map pair hs
    → IsDelivered hs ends s (receive_headers gs ends s)
unfolding signal update_state add_headers
receive_headers-IsDelivered gs hs ends s same =
    let e = same_plain gs hs same in
    let kind : is_response gs ≡ is_response hs =
      is_response-plain gs ∙ ap is_response e ∙ sym (is_response-plain hs) in
    elim (is_response-IsRequest hs) [
      | inl (f, h) ↦
          let done : add_headers gs s ≡ with_request s hs =
            rw (kind, f) (add_req_headers-with_request s gs ∙ with_request_same s gs hs e) in
          subst (λ x. IsDelivered hs ends s (moved ends x)) (sym done) (as_request h)
      | inr (t, h) ↦
          let done : add_headers gs s ≡ with_response s hs =
            rw (kind, t) (add_resp_headers-with_response s gs ∙ with_response_same s gs hs e) in
          subst (λ x. IsDelivered hs ends s (moved ends x)) (sym done) (as_response h)
    ]

-- A receiver whose decoder holds the encoder's exact table, fields whose sizes fit uint32 with the
-- table's limit, a block below 2 ^ 24 bytes and a stream identifier of 31 bits: the HEADERS frame
-- of the block is read and taken without error, and the decoder has the encoder's new table. Its
-- stream, made if need be, is signalled and in the state that the frame's END_STREAM leads to. Without
-- a ":status" among the fields that the sender compressed, they stand behind the stream's request
-- headers, and the method, path, scheme and authority have the last value given for them; else they
-- stand behind its response headers, and so has the status. Nothing else of the stream changes.
pub write_headers_frame-IsDelivered :
    (c : Conn) (e e' : Encoder) (hs : List HeaderField) (sid : ℕ) (ends end_headers : Bool)
    (rest : Bytes)
    → c.decoder ≡ e.table
    → IsExact e.table
    → All (HasRoom e.table) hs
    → encode e hs ≡ ok e'
    → length e'.buf < 2 ^ 24
    → sid < 2 ^ 31
    → (f : Frame) × (s : Stream) × (read_frame
          (write_headers_frame sid e'.buf ends end_headers ++ rest)
        ≡ ok (f, rest))
      × ((process_frame c f).1 ≡ none)
      × (get (process_frame c f).0.streams sid ≡ some s)
      × IsDelivered hs ends (target c sid) s
      × ((process_frame c f).0.decoder ≡ e'.table)
write_headers_frame-IsDelivered c e e' hs sid ends end_headers rest d valid room sent short small =
    let (f, got, read, taken, same, stored, table) =
      process-write_headers_frame c e e' hs sid ends end_headers rest d valid room sent short
        small in
    (
      f,
      receive_headers got ends (target c sid),
      read,
      taken,
      stored,
      receive_headers-IsDelivered got hs ends (target c sid) same,
      table,
    )
