-- ===== src/Http1/Messages.antt =====
-- Whole messages of pkg/http1, read back by `RxReq` and `RxResp`.
use gtest.Common.{
  ℕ, Bool, if◌then◌else◌, ◌≡◌, ◌≢◌, refl, ap, ◌∙◌, ◌||◌, List, [], ◌∷◌, ◌++◌, append_assoc, map,
  some, Bytes, codes, bytes_eq, length, All, All-append, ℤ, ok, arith,
}
use gtest.Common.Texts.{cut, cut-append, cut-Lacks, Lacks, trim_newlines, trim_newlines-append}
use gtest.Common.Numerals.{atoi, decimal, decimal-IsWord}
use gtest.Http1.{Http, reset_request, reset_response, read_body}
use gtest.Http1.Input.{pure}
use gtest.Http1.Receive.{
  split_line, request_line, rx_req_from, rx_req, rx_resp_from, rx_resp, has_no_body,
}
use gtest.Http1.Send.{Headers, crlf, header_line, header_lines, message, te_chunked, cl_header}
use gtest.Http1.Lines.{IsLine, IsHeader, read_line-line, read_headers-lines}
use gtest.Http1.Framing.{IsPlain, content_length_name, transfer_encoding_name}
use gtest.Http1.Chunks.{words-IsLine}

append-ne-nil : (n : Bytes) (c : ℕ) (s : Bytes) → (n ++ (c ∷ s)) ≢ []
append-ne-nil [] c s e = cc
append-ne-nil (x ∷ n) c s e = cc

named_line-IsHeader :
    (n v : Bytes)
    → Lacks b'\n' n
    → Lacks b'\n' v
    → trim_newlines v ≡ v
    → IsHeader (n ++ (b':' ∷ b' ' ∷ v))
named_line-IsHeader n v p q w = record {
  line = record {
    one = All-append (λ c. c ≢ b'\n') n (b':' ∷ b' ' ∷ v) p (omega arith, (omega arith, q));
    whole = trim_newlines-append n b':' (b' ' ∷ v) refl (trim_newlines-append [] b' ' v refl w);
  };
  some_text = append-ne-nil n b':' (b' ' ∷ v);
}

-- The `%s: %s` of a header is a header line.
pub header_line-IsHeader : (h : Bytes × Bytes) → IsPlain h → IsHeader (header_line h)
header_line-IsHeader (n, v) p = named_line-IsHeader n v p.name_line p.value_line p.value_whole

pub map-IsHeader : (m : Headers) → All IsPlain m → All IsHeader (map header_line m)
map-IsHeader [] h = tt
map-IsHeader (x ∷ m) (p, h) = (header_line-IsHeader x p, map-IsHeader m h)

-- The framing headers are header lines.
pub te_chunked-IsHeader : IsHeader te_chunked
unfolding cut trim_newlines
te_chunked-IsHeader =
    named_line-IsHeader transfer_encoding_name (codes "chunked")
      (cut-Lacks b'\n' transfer_encoding_name refl) (cut-Lacks b'\n' (codes "chunked") refl) refl

pub cl_header-IsHeader : (n : ℕ) → IsHeader (cl_header n)
unfolding cut
cl_header-IsHeader n =
    let digits = words-IsLine (decimal n) (decimal-IsWord n) in
    named_line-IsHeader content_length_name (decimal n) (cut-Lacks b'\n' content_length_name refl)
      digits.one digits.whole

-- A word of a start line.
pub record IsPart (s : Bytes) : Type 0 where
  pub no_space : Lacks b' ' s
  pub no_line_feed : Lacks b'\n' s

split_line-three :
    (a b c : Bytes)
    → IsPart a
    → IsPart b
    → split_line (a ++ (b' ' ∷ (b ++ (b' ' ∷ c)))) ≡ some (a, b, some c)
unfolding split_line
split_line-three a b c h k =
    rw (cut-append b' ' a (b ++ (b' ' ∷ c)) h.no_space, cut-append b' ' b c k.no_space)

request_line-three :
    (a b c : Bytes)
    → IsPart a
    → IsPart b
    → request_line (a ++ (b' ' ∷ (b ++ (b' ' ∷ c)))) ≡ some (a, b, c)
unfolding request_line
request_line-three a b c h k = rw (request_line, split_line-three a b c h k)

parts-IsLine :
    (a b c : Bytes) → IsPart a → IsPart b → IsLine c → IsLine (a ++ (b' ' ∷ (b ++ (b' ' ∷ c))))
parts-IsLine a b c h k l = record {
  one =
      All-append (λ x. x ≢ b'\n') a (b' ' ∷ (b ++ (b' ' ∷ c))) h.no_line_feed
        (omega arith, All-append (λ x. x ≢ b'\n') b (b' ' ∷ c) k.no_line_feed (omega arith, l.one));
  whole =
      trim_newlines-append a b' ' (b ++ (b' ' ∷ c)) refl
        (trim_newlines-append b b' ' c refl l.whole);
}

message-append :
    (start : Bytes) (lines : List Bytes) (body rest : Bytes)
    → message start lines body ++ rest
      ≡ start ++ (crlf ++ (header_lines lines ++ (crlf ++ (body ++ rest))))
message-append start lines body rest =
    append_assoc start (crlf ++ (header_lines lines ++ (crlf ++ body))) rest
    ∙ ap (λ b. start ++ (crlf ++ b)) (append_assoc (header_lines lines) (crlf ++ body) rest)

-- What `RxReq` makes of a session on such a message.
abbrev pub with_request : Http → Bytes → Bytes → Bytes → List Bytes → Bytes → Bytes → Http
with_request k method url proto lines body rest = record (reset_request k) {
  method = method;
  url = url;
  proto = proto;
  head_method = bytes_eq method (codes "HEAD");
  req_headers = lines;
  body = body;
  body_len = length body;
  received = rest;
}

pub rx_req-message :
    (k : Http) (method url proto : Bytes) (lines : List Bytes) (bytes body rest : Bytes)
    → IsPart method
    → IsPart url
    → IsLine proto
    → All IsHeader lines
    → read_body lines (bytes ++ rest) ≡ (ok body, rest)
    → rx_req (record k {
      received = message (method ++ (b' ' ∷ (url ++ (b' ' ∷ proto)))) lines bytes ++ rest;
    })
      ≡ ok (with_request k method url proto lines body rest)
unfolding rx_req rx_req_from reset_request
rx_req-message k method url proto lines bytes body rest m u p h e =
    let start = method ++ (b' ' ∷ (url ++ (b' ' ∷ proto))) in
    rw (
      message-append start lines bytes rest,
      read_line-line start (header_lines lines ++ (crlf ++ (bytes ++ rest)))
          (parts-IsLine method url proto m u p),
      request_line-three method url proto m u,
      read_headers-lines lines (bytes ++ rest) h,
      e,
    )

-- What `RxResp` makes of a session on such a message.
abbrev pub with_response : Http → Bytes → ℤ → Bytes → List Bytes → Bytes → Bytes → Http
with_response k proto status reason lines body rest = record (reset_response k) {
  proto = proto;
  status = status;
  reason = reason;
  resp_headers = lines;
  body = body;
  body_len = length body;
  received = rest;
}

-- Behind a status, or on a request, that allows no body, none is read.
pub rx_resp-message :
    (no_obj : Bool) (k : Http) (proto number reason : Bytes) (status : ℤ) (lines : List Bytes)
    (bytes body rest after : Bytes)
    → IsPart proto
    → IsPart number
    → IsLine reason
    → atoi number ≡ some status
    → All IsHeader lines
    → (if no_obj || k.head_method || has_no_body status then pure [] else read_body lines)
        (bytes ++ rest)
      ≡ (ok body, after)
    → rx_resp no_obj (record k {
      received = message (proto ++ (b' ' ∷ (number ++ (b' ' ∷ reason)))) lines bytes ++ rest;
    })
      ≡ ok (with_response k proto status reason lines body after)
unfolding rx_resp rx_resp_from reset_response
rx_resp-message no_obj k proto number reason status lines bytes body rest after m u p n h e =
    let start = proto ++ (b' ' ∷ (number ++ (b' ' ∷ reason))) in
    rw (
      message-append start lines bytes rest,
      read_line-line start (header_lines lines ++ (crlf ++ (bytes ++ rest)))
          (parts-IsLine proto number reason m u p),
      split_line-three proto number reason m u,
      n,
      read_headers-lines lines (bytes ++ rest) h,
      e,
    )
