-- ===== src/Http1/Responses.antt =====
-- A response that pkg/http1 writes, read back.
use gtest.Common.{
  ℕ, ◌<◌, ◌^◌, ◌≡◌, ◌≢◌, refl, Bool, true, false, ◌||◌, List, [], ◌∷◌, ◌++◌, map, Option, some,
  Bytes, length, All, All-append, All-imp, ℤ, pos, Result, ok, err, Bool-cases, inl, inr, subst,
  arith,
}
use gtest.Http1.{Http, reset_response, read_body}
use gtest.Http1.Input.{HttpError}
use gtest.Http1.Receive.{has_no_body, rx_resp}
use gtest.Http1.Send.{
  Headers, TxRespOptions, header_line, message, prepare_body, status_of, reason_of, resp_proto_of,
  format_int, resp_defaults, send_resp, resp_framing, write_resp, tx_resp, body_or_generated,
}
use gtest.Http1.Lines.{IsLine, IsHeader}
use gtest.Http1.Framing.{IsPlain, read_body-chunked, read_body-sized, read_body-bare}
use gtest.Http1.Messages.{
  IsPart, map-IsHeader, te_chunked-IsHeader, cl_header-IsHeader, with_response, rx_resp-message,
}
use gtest.Http1.Defaults.{ok_inj, headers_of, prepare_body-plain, resp_defaults-plain}
use gtest.Common.Numerals.{decimal, IsWord, decimal-IsWord, atoi-decimal, atoi}
use gtest.Http1.RoundTrip.{IsBody}

-- What a sender has to say for its response to be read back.
pub record IsResponse (h : Http) (opts : TxRespOptions) : Type 0 where
  pub proto_word : IsPart (resp_proto_of opts)
  pub code : ℕ
  pub status_is : status_of opts ≡ pos code
  pub code_small : code < 2 ^ 63
  pub reason_line : IsLine (reason_of opts)
  pub name_line : IsLine h.name
  pub plain : All IsPlain opts.headers

-- No body is read of it.
abbrev pub is_silent : Bool → Http → ℤ → Bool
is_silent no_obj k status = no_obj || k.head_method || has_no_body status

-- A body that can be read back where one is read: it goes out with its length or in chunks.
abbrev pub IsSized : TxRespOptions → Bytes → Type 0
IsSized opts body =
    IsBody opts.chunked body × (opts.chunked ≡ false → opts.no_len ≡ true → body ≡ [])

resp_framing-IsHeader :
    (chunked no_len : Bool) (body : Bytes) → All IsHeader (resp_framing chunked no_len body).0
resp_framing-IsHeader true no_len body = (te_chunked-IsHeader, tt)
resp_framing-IsHeader false true body = tt
resp_framing-IsHeader false false body = (cl_header-IsHeader (length body), tt)

resp_framing-read :
    (opts : TxRespOptions) (m : Headers) (body rest : Bytes)
    → All IsPlain m
    → IsSized opts body
    → let f = resp_framing opts.chunked opts.no_len body in
      read_body (map header_line m ++ f.0) (f.1 ++ rest) ≡ (ok body, rest)
resp_framing-read opts m body rest h ((k, small), e) = go opts.chunked opts.no_len k e
  where
    go :
        (chunked no_len : Bool)
        → (chunked ≡ true → body ≢ [])
        → (chunked ≡ false → no_len ≡ true → body ≡ [])
        → let f = resp_framing chunked no_len body in
          read_body (map header_line m ++ f.0) (f.1 ++ rest) ≡ (ok body, rest)
    go true no_len k e = read_body-chunked m body rest h (k refl, small)
    go false false k e = read_body-sized m body rest h small
    go false true k e = rw (e refl refl) (read_body-bare m rest h)

number-IsPart : (n : ℕ) → IsPart (decimal n)
number-IsPart n = record {
  no_space =
      All-imp IsWord (λ c. c ≢ b' ') (λ c p. omega (arith, p.0)) (decimal n) (decimal-IsWord n);
  no_line_feed =
      All-imp IsWord (λ c. c ≢ b'\n') (λ c p. omega (arith, p.0)) (decimal n) (decimal-IsWord n);
}

-- What `RxResp` makes of a response: without a body where none is read.
abbrev pub answered : Bool → Http → Http → List Bytes × Bytes → Bytes → Http
answered true k h' (framing, bytes) rest =
    with_response k h'.proto h'.status h'.reason (h'.resp_headers ++ framing) [] (bytes ++ rest)
answered false k h' (framing, bytes) rest =
    with_response k h'.proto h'.status h'.reason (h'.resp_headers ++ framing) h'.body rest

-- What went out after `h` is read back by `k` as the response of `h'`.
abbrev IsReadBack : Http → Http → TxRespOptions → Bool → Http → Bytes → Type 0
IsReadBack h h' opts no_obj k rest =
    (sent : Bytes) × (h'.sent ≡ h.sent ++ sent)
    × (rx_resp no_obj (record k { received = sent ++ rest })
        ≡ ok (
            answered (is_silent no_obj k (status_of opts)) k h'
              (resp_framing opts.chunked opts.no_len h'.body) rest))

write_resp-IsReadBack :
    (h k : Http) (opts : TxRespOptions) (no_obj : Bool) (body : Bytes) (m : Headers) (rest : Bytes)
    → IsResponse h opts
    → All IsPlain m
    → (is_silent no_obj k (status_of opts) ≡ false → IsSized opts body)
    → IsReadBack h (write_resp h opts body (map header_line m)) opts no_obj k rest
unfolding reset_response
write_resp-IsReadBack h k opts no_obj body m rest q p b =
    let framing = (resp_framing opts.chunked opts.no_len body).0 in
    let bytes = (resp_framing opts.chunked opts.no_len body).1 in
    let lines = map header_line m ++ framing in
    let number = format_int (status_of opts) in
    let word : IsPart number = rw q.status_is (number-IsPart q.code) in
    let read : atoi number ≡ some (status_of opts) =
      rw q.status_is (atoi-decimal q.code q.code_small) in
    let start =
      resp_proto_of opts ++ (b' ' ∷ (format_int (status_of opts) ++ (b' ' ∷ reason_of opts))) in
    let headers =
      All-append IsHeader (map header_line m) framing (map-IsHeader m p)
        (resp_framing-IsHeader opts.chunked opts.no_len body) in
    (
      message start lines bytes,
      refl,
      elim (Bool-cases (is_silent no_obj k (status_of opts))) [
        | inl e ↦ rw e (
            rx_resp-message no_obj k (resp_proto_of opts) number (reason_of opts) (status_of opts)
              lines bytes [] rest (bytes ++ rest) q.proto_word word q.reason_line read headers
              (rw e refl))
        | inr e ↦ rw e (
            rx_resp-message no_obj k (resp_proto_of opts) number (reason_of opts) (status_of opts)
              lines bytes body rest rest q.proto_word word q.reason_line read headers
              (rw e (resp_framing-read opts m body rest p (b e))))
      ],
    )

send_resp-IsReadBack :
    (h h' k : Http) (opts : TxRespOptions) (no_obj : Bool) (rest : Bytes)
    (r : Result HttpError (Bytes × Headers))
    → IsResponse h opts
    → All IsPlain (headers_of r)
    → send_resp h opts r ≡ ok h'
    → (is_silent no_obj k (status_of opts) ≡ false → IsSized opts h'.body)
    → IsReadBack h h' opts no_obj k rest
send_resp-IsReadBack h h' k opts no_obj rest (err e) q p eq = absurd cc
send_resp-IsReadBack h h' k opts no_obj rest (ok (body, m)) q p eq =
    let m' = resp_defaults h opts m in
    subst
      (λ (w : Http).
        (is_silent no_obj k (status_of opts) ≡ false → IsSized opts w.body)
        → IsReadBack h w opts no_obj k rest)
      (ok_inj (write_resp h opts body (map header_line m')) h' eq)
      (write_resp-IsReadBack h k opts no_obj body m' rest q
        (resp_defaults-plain h opts m q.name_line p))

-- A response that `TxResp` sends with a status from 0 to 2^63 - 1, a protocol of one word, a reason, a
-- name and headers of one line each, of which none says how long the body is, is what `RxResp` reads at
-- any session: protocol, status, reason, and the headers with the framing one. Where the command, a HEAD
-- request or the status allows no body, none is read and its bytes are left. Elsewhere the body is read,
-- if it has at most 2^48 bytes, is not empty in chunks, and is empty where its length is not sent.
pub rx_resp-tx_resp :
    (compress : ℤ → Bytes → Option Bytes) (h h' k : Http) (opts : TxRespOptions) (no_obj : Bool)
    (rest : Bytes)
    → IsResponse h opts
    → tx_resp compress h opts ≡ ok h'
    → (is_silent no_obj k (status_of opts) ≡ false → IsSized opts h'.body)
    → (sent : Bytes) × (h'.sent ≡ h.sent ++ sent)
      × (rx_resp no_obj (record k { received = sent ++ rest })
          ≡ ok (
              answered
                (is_silent no_obj k (status_of opts))
                k
                h'
                (resp_framing opts.chunked opts.no_len h'.body)
                rest))
unfolding tx_resp
rx_resp-tx_resp compress h h' k opts no_obj rest q =
    send_resp-IsReadBack h h' k opts no_obj rest
      (prepare_body compress h.gzip_level opts.gzip (body_or_generated opts.body opts.body_len)
        opts.headers)
      q
      (prepare_body-plain compress h.gzip_level opts.gzip
        (body_or_generated opts.body opts.body_len) opts.headers q.plain)
