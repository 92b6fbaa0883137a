-- ===== src/Tests/Http1.antt =====
-- Runs of pkg/http1, and a case of each property of it where its conditions hold.
use gtest.Common.{
  ◌≡◌, ◌≢◌, refl, true, false, [], ◌∷◌, ◌++◌, map, Option, none, some, Bytes, codes, bytes_eq, All,
  ℤ, pos, ok, err, arith,
}
use gtest.Common.Maps.{insert, lookup}
use gtest.Common.Texts.{cut, cut-Lacks, trim_newlines, trim_space, trim_front, to_lower}
use gtest.Http1.{Http, new_http, parse_chunked_body}
use gtest.Http1.Input.{stuck}
use gtest.Http1.Receive.{rx_req, rx_resp}
use gtest.Http1.Send.{
  TxReqOptions, TxRespOptions, header_line, generate_body, generate_from, req_defaults, req_framing,
  write_req, tx_req, send_chunked, status_of, resp_framing, resp_defaults, write_resp, tx_resp,
  prepare_body, default_reason,
}
use gtest.Http1.Framing.{IsPlain}
use gtest.Http1.Messages.{IsPart, with_request}
use gtest.Http1.Chunks.{IsChunk, in_chunks, joined, parse_chunked_body-in_chunks}
use gtest.Http1.Defaults.{default-IsPlain, literal-IsLine}
use gtest.Http1.RoundTrip.{IsRequest, IsBody, rx_req-tx_req}
use gtest.Http1.Responses.{IsResponse, is_silent, answered, rx_resp-tx_resp}
use gtest.Http1.Endings.{rx_ends}

two_chunks-IsChunk : All IsChunk (codes "abc" ∷ codes "de" ∷ [])
two_chunks-IsChunk = (((λ e. cc), omega arith), (((λ e. cc), omega arith), tt))

parse_chunked_body-in_chunks_example :
    (parse_chunked_body (in_chunks (codes "abc" ∷ codes "de" ∷ []) ++ codes "GET")
      ≡ (ok (joined (codes "abc" ∷ codes "de" ∷ [])), codes "GET"))
    × ((body : Bytes) → send_chunked body ≡ in_chunks (body ∷ []))
    × (parse_chunked_body (send_chunked [] ++ codes "GET") ≡ (ok [], in_chunks [] ++ codes "GET"))
parse_chunked_body-in_chunks_example =
    parse_chunked_body-in_chunks (codes "abc" ∷ codes "de" ∷ []) (codes "GET") two_chunks-IsChunk

rx_ends_example : (rx_req new_http ≢ err stuck) × (rx_resp true new_http ≢ err stuck)
rx_ends_example = rx_ends new_http true

-- A compressor that changes nothing.
abbrev compress : ℤ → Bytes → Option Bytes
compress level body = some body

abbrev post : TxReqOptions
post = record {
  method = codes "POST";
  url = codes "/form";
  proto = [];
  headers = (codes "X-Id", codes "7") ∷ [];
  body = some (codes "a=1");
  body_len = pos 0;
  chunked = true;
  gzip = true;
  no_host = false;
  no_user_agent = false;
}

id-IsPlain : IsPlain (codes "X-Id", codes "7")
unfolding cut trim_newlines trim_space trim_front to_lower bytes_eq
id-IsPlain =
    default-IsPlain (codes "X-Id") (codes "7") refl refl (literal-IsLine (codes "7") refl refl) refl
      refl

word-IsPart : (s : Bytes) → cut b' ' s ≡ none → cut b'\n' s ≡ none → IsPart s
word-IsPart s h k = record { no_space = cut-Lacks b' ' s h; no_line_feed = cut-Lacks b'\n' s k }

post-IsRequest : IsRequest new_http post
unfolding cut trim_newlines
post-IsRequest = record {
  method_word = word-IsPart (codes "POST") refl refl;
  url_word = word-IsPart (codes "/form") refl refl;
  proto_line = literal-IsLine (codes "HTTP/1.1") refl refl;
  name_line = literal-IsLine [] refl refl;
  plain = (id-IsPlain, tt);
}

-- The session after it sent the request.
abbrev posted : Http
posted = write_req new_http post (codes "a=1") (
    map header_line (
      req_defaults new_http post
        ((codes "X-Id", codes "7") ∷ (codes "Content-Encoding", codes "gzip") ∷ [])))

posted_lem : tx_req compress new_http post ≡ ok posted
unfolding tx_req prepare_body insert bytes_eq
posted_lem = refl

posted-IsBody : IsBody true (codes "a=1")
posted-IsBody = ((λ e f. cc), omega arith)

rx_req-tx_req_example :
    (sent : Bytes) × (posted.sent ≡ new_http.sent ++ sent)
    × (rx_req (record new_http { received = sent ++ codes "GET" })
        ≡ ok (
            with_request new_http posted.method posted.url posted.proto
              (posted.req_headers ++ (req_framing true posted.body).0)
              posted.body
              (codes "GET")))
rx_req-tx_req_example =
    rx_req-tx_req compress new_http posted new_http post (codes "GET") post-IsRequest posted_lem
      posted-IsBody

abbrev not_found : TxRespOptions
not_found = record {
  status = pos 404;
  reason = [];
  proto = [];
  headers = [];
  body = none;
  body_len = pos 5;
  chunked = false;
  gzip = false;
  no_len = false;
  no_server = false;
}

not_found-IsResponse : IsResponse new_http not_found
unfolding cut trim_newlines default_reason lookup
not_found-IsResponse = record {
  proto_word = word-IsPart (codes "HTTP/1.1") refl refl;
  code = 404;
  status_is = refl;
  code_small = omega arith;
  reason_line = literal-IsLine (codes "Not Found") refl refl;
  name_line = literal-IsLine [] refl refl;
  plain = tt;
}

-- The session after it sent the response.
abbrev answered_404 : Http
answered_404 =
    write_resp new_http not_found (codes "!\"#$%")
      (map header_line (resp_defaults new_http not_found []))

not_found-sent : tx_resp compress new_http not_found ≡ ok answered_404
unfolding tx_resp prepare_body generate_body generate_from
not_found-sent = refl

rx_resp-tx_resp_example :
    (sent : Bytes) × (answered_404.sent ≡ new_http.sent ++ sent)
    × (rx_resp false (record new_http { received = sent ++ codes "GET" })
        ≡ ok (
            answered
              (is_silent false new_http (status_of not_found))
              new_http
              answered_404
              (resp_framing false false answered_404.body)
              (codes "GET")))
rx_resp-tx_resp_example =
    rx_resp-tx_resp compress new_http answered_404 new_http not_found false (codes "GET")
      not_found-IsResponse not_found-sent (λ _. (((λ e. absurd cc), omega arith), λ _ e. absurd cc))
