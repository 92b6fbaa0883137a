-- ===== src/Http1/RoundTrip.antt =====
-- A request or a response that pkg/http1 writes, read back.
use gtest.Common.{
  ◌≤◌, ◌≡◌, ◌≢◌, refl, Bool, true, false, [], ◌∷◌, ◌++◌, map, Option, Bytes, length, All,
  All-append, ℤ, Result, ok, err, subst,
}
use gtest.Http1.{Http, reset_request, read_body}
use gtest.Http1.Input.{HttpError, max_alloc}
use gtest.Http1.Receive.{rx_req}
use gtest.Http1.Send.{
  Headers, TxReqOptions, header_line, message, prepare_body, method_of, url_of, proto_of,
  req_defaults, send_req, req_framing, write_req, tx_req, body_or_generated,
}
use gtest.Http1.Lines.{IsLine, IsHeader}
use gtest.Http1.Framing.{IsPlain, read_body-chunked, read_body-sized, read_body-bare}
use gtest.Http1.Messages.{
  IsPart, map-IsHeader, te_chunked-IsHeader, cl_header-IsHeader, with_request, rx_req-message,
}
use gtest.Http1.Defaults.{ok_inj, positive_len, headers_of, prepare_body-plain, req_defaults-plain}

-- What a sender has to say for its request to be read back.
pub record IsRequest (h : Http) (opts : TxReqOptions) : Type 0 where
  pub method_word : IsPart (method_of opts)
  pub url_word : IsPart (url_of opts)
  pub proto_line : IsLine (proto_of opts)
  pub name_line : IsLine h.name
  pub plain : All IsPlain opts.headers

-- A body that can be read back.
abbrev pub IsBody : Bool → Bytes → Type 0
IsBody chunked body = (chunked ≡ true → body ≢ []) × (length body ≤ max_alloc)

req_framing-IsHeader : (chunked : Bool) (body : Bytes) → All IsHeader (req_framing chunked body).0
req_framing-IsHeader true body = (te_chunked-IsHeader, tt)
req_framing-IsHeader false [] = tt
req_framing-IsHeader false (c ∷ cs) =
    rw (positive_len (length cs)) (cl_header-IsHeader (length (c ∷ cs)), tt)

req_framing-read :
    (chunked : Bool) (m : Headers) (body rest : Bytes)
    → All IsPlain m
    → IsBody chunked body
    → read_body
        (map header_line m ++ (req_framing chunked body).0)
        ((req_framing chunked body).1 ++ rest)
      ≡ (ok body, rest)
req_framing-read true m body rest h (k, small) = read_body-chunked m body rest h (k refl, small)
req_framing-read false m [] rest h k = read_body-bare m rest h
req_framing-read false m (c ∷ cs) rest h (_, small) =
    rw (positive_len (length cs)) (read_body-sized m (c ∷ cs) rest h small)

-- What went out after `h` is read back by `k` as the request of `h'`.
abbrev IsReadBack : Http → Http → Bool → Http → Bytes → Type 0
IsReadBack h h' chunked k rest =
    (sent : Bytes) × (h'.sent ≡ h.sent ++ sent)
    × (rx_req (record k { received = sent ++ rest })
        ≡ ok (
            with_request k h'.method h'.url h'.proto
              (h'.req_headers ++ (req_framing chunked h'.body).0) h'.body rest))

write_req-IsReadBack :
    (h k : Http) (opts : TxReqOptions) (body : Bytes) (m : Headers) (rest : Bytes)
    → IsRequest h opts
    → All IsPlain m
    → IsBody opts.chunked body
    → IsReadBack h (write_req h opts body (map header_line m)) opts.chunked k rest
unfolding reset_request
write_req-IsReadBack h k opts body m rest q p b =
    let lines = map header_line m ++ (req_framing opts.chunked body).0 in
    let start = method_of opts ++ (b' ' ∷ (url_of opts ++ (b' ' ∷ proto_of opts))) in
    (
      message start lines (req_framing opts.chunked body).1,
      refl,
      rx_req-message k (method_of opts) (url_of opts) (proto_of opts) lines
          (req_framing opts.chunked body).1 body rest q.method_word q.url_word q.proto_line
          (All-append IsHeader (map header_line m) (req_framing opts.chunked body).0
            (map-IsHeader m p) (req_framing-IsHeader opts.chunked body))
          (req_framing-read opts.chunked m body rest p b),
    )

send_req-IsReadBack :
    (h h' k : Http) (opts : TxReqOptions) (rest : Bytes) (r : Result HttpError (Bytes × Headers))
    → IsRequest h opts
    → All IsPlain (headers_of r)
    → send_req h opts r ≡ ok h'
    → IsBody opts.chunked h'.body
    → IsReadBack h h' opts.chunked k rest
send_req-IsReadBack h h' k opts rest (err e) q p eq = absurd cc
send_req-IsReadBack h h' k opts rest (ok (body, m)) q p eq =
    let m' = req_defaults h opts m in
    subst (λ (w : Http). IsBody opts.chunked w.body → IsReadBack h w opts.chunked k rest)
      (ok_inj (write_req h opts body (map header_line m')) h' eq)
      (write_req-IsReadBack h k opts body m' rest q (req_defaults-plain h opts m q.name_line p))

-- A request that `TxReq` sends of a method and a URL of one word each, a protocol, a name and headers
-- of one line each, of which none says how long the body is, and with a body of at most 2^48 bytes,
-- which is not empty where it goes out in chunks, is what `RxReq` reads at any session: the method, the
-- URL, the protocol, the headers with the framing one, and the body, compressed or not. What follows
-- the request is left.
pub rx_req-tx_req :
    (compress : ℤ → Bytes → Option Bytes) (h h' k : Http) (opts : TxReqOptions) (rest : Bytes)
    → IsRequest h opts
    → tx_req compress h opts ≡ ok h'
    → IsBody opts.chunked h'.body
    → (sent : Bytes) × (h'.sent ≡ h.sent ++ sent)
      × (rx_req (record k { received = sent ++ rest })
          ≡ ok (
              with_request k h'.method h'.url h'.proto
                (h'.req_headers ++ (req_framing opts.chunked h'.body).0)
                h'.body
                rest))
unfolding tx_req
rx_req-tx_req compress h h' k opts rest q =
    send_req-IsReadBack h h' k opts rest
      (prepare_body compress h.gzip_level opts.gzip (body_or_generated opts.body opts.body_len)
        opts.headers)
      q
      (prepare_body-plain compress h.gzip_level opts.gzip
        (body_or_generated opts.body opts.body_len) opts.headers q.plain)
