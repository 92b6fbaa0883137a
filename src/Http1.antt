-- ===== src/Http1.antt =====
-- pkg/http1/http.go, rxreq.go and rxresp.go: a session, and the receiving of messages.
pub mod Input
pub mod Receive
pub mod Send
pub mod Lines
pub mod Chunks
pub mod Framing
pub mod Endings
pub mod Commands
pub mod Handler
pub mod Reasons
pub mod Expect
pub mod Comparing
pub mod Headers
pub mod Generated
pub mod Defaults
pub mod Messages
pub mod RoundTrip
pub mod Responses
use gtest.Common.{
  ℕ, zero, suc, ◌<◌, Bool, true, false, not, ◌&&◌, ◌||◌, List, [], ◌∷◌, ◌++◌, Option, none, some,
  ltb, ◌==◌, if◌then◌else◌, Bytes, codes, bytes_eq, length, ℤ, pos, negsuc, Result, ok, err,
}
use gtest.Common.Strings.{index}
use gtest.Common.Texts.{cut, trim_space, to_lower}
use gtest.Common.Numerals.{atoi, parse_int}
use gtest.Http1.Input.{
  HttpError, bad_request_line, bad_status_line, bad_status, bad_content_length, bad_chunk_size,
  stuck, Reader, pure, fail, ◌>>=◌, ◌>>◌, or_fail, read_line, read_bytes,
}

-- `received` is what is not yet read of the input, `sent` what went out.
pub record Http : Type 0 where
  pub name : Bytes
  pub req_headers : List Bytes
  pub resp_headers : List Bytes
  pub body : Bytes
  pub body_len : ℕ
  pub gzip_level : ℤ
  pub method : Bytes
  pub url : Bytes
  pub proto : Bytes
  pub status : ℤ
  pub reason : Bytes
  pub head_method : Bool
  pub received : Bytes
  pub sent : Bytes

abbrev pub new_http : Http
new_http = record {
  name = [];
  req_headers = [];
  resp_headers = [];
  body = [];
  body_len = 0;
  gzip_level = negsuc 0;
  method = [];
  url = [];
  proto = [];
  status = pos 0;
  reason = [];
  head_method = false;
  received = [];
  sent = [];
}

unfoldable pub reset_request : Http → Http
reset_request h = record h {
  req_headers = [];
  method = [];
  url = [];
  proto = codes "HTTP/1.1";
  body = [];
  body_len = 0;
  head_method = false;
}

unfoldable pub reset_response : Http → Http
reset_response h = record h {
  resp_headers = [];
  status = pos 0;
  reason = [];
  proto = codes "HTTP/1.1";
  body = [];
  body_len = 0;
}

-- The loop of `GetRequestHeader` and `GetResponseHeader`: the first header of the name, in any case.
unfoldable pub get_header : List Bytes → Bytes → Bytes
get_header [] name = []
get_header (hdr ∷ hs) name = elim (cut b':' hdr) [
  | none ↦ get_header hs name
  | some (before, behind) ↦
      if bytes_eq (to_lower (trim_space before)) (to_lower name)
      then trim_space behind
      else get_header hs name
]

unfoldable pub get_request_header : Http → Bytes → Bytes
unfolding get_header
get_request_header h name = get_header h.req_headers name

unfoldable pub get_response_header : Http → Bytes → Bytes
unfolding get_header
get_response_header h name = get_header h.resp_headers name

-- An empty line ends a loop.
abbrev pub at_line {ℓ} : {A : Type ℓ} → Reader A → (Bytes → Reader A) → Bytes → Reader A
at_line last more [] = last
at_line last more (c ∷ cs) = more (c ∷ cs)

-- So does the size zero.
abbrev pub at_size {ℓ} : {A : Type ℓ} → Reader A → (ℤ → Reader A) → ℤ → Reader A
at_size last more (pos zero) = last
at_size last more (pos (suc n)) = more (pos (suc n))
at_size last more (negsuc n) = more (negsuc n)

-- The loop that skips the trailers of a chunked body.
unfoldable pub read_trailers : ℕ → Reader (Unit {0})
unfolding read_line
read_trailers zero = fail stuck
read_trailers (suc fuel) = do line ← read_line; at_line (pure tt) (λ _. read_trailers fuel) line

-- The hexadecimal number before an extension.
abbrev pub before_cut : Bytes → Option (Bytes × Bytes) → Bytes
before_cut s none = s
before_cut s (some (a, b)) = a

unfoldable pub chunk_size : Bytes → Option ℤ
chunk_size line = parse_int 16 (trim_space (before_cut line (cut b';' line)))

-- The loop of `ParseChunkedBody`, behind the chunks read before. A line that is not empty behind a
-- chunk is logged only.
unfoldable pub read_chunks : ℕ → Bytes → Reader Bytes
unfolding read_line read_trailers read_bytes
read_chunks zero body = fail stuck
read_chunks (suc fuel) body = do
  line ← read_line
  size ← or_fail bad_chunk_size (chunk_size line)
  at_size (read_trailers fuel >> pure body)
      (λ size. do chunk ← read_bytes size; read_line; read_chunks fuel (body ++ chunk)) size

-- Each round reads a line of a byte at least.
unfoldable pub parse_chunked_body : Reader Bytes
parse_chunked_body r = read_chunks (suc (length r)) [] r

-- The loop of `readHeaders`.
unfoldable pub read_header_lines : ℕ → List Bytes → Reader (List Bytes)
unfolding read_line
read_header_lines zero hs = fail stuck
read_header_lines (suc fuel) hs = do
  line ← read_line
  at_line (pure hs) (λ hdr. read_header_lines fuel (hs ++ (hdr ∷ []))) line

unfoldable pub read_headers : Reader (List Bytes)
read_headers r = read_header_lines (suc (length r)) [] r

abbrev pub is_some {ℓ} : {A : Type ℓ} → Option A → Bool
is_some none = false
is_some (some a) = true

unfoldable pub is_chunked : Bytes → Bool
is_chunked te = is_some (index (to_lower te) (codes "chunked"))

abbrev pub content_length : Bytes → Option ℤ
content_length [] = some (pos 0)
content_length (c ∷ cs) = atoi (c ∷ cs)

-- A body whose length is said, if it is positive.
abbrev pub at_length : ℤ → Reader Bytes
at_length (pos zero) = pure []
at_length (pos (suc n)) = read_bytes (pos (suc n))
at_length (negsuc n) = pure []

-- `readBody` on the headers of the message.
unfoldable pub read_body : List Bytes → Reader Bytes
unfolding read_bytes parse_chunked_body get_header is_chunked
read_body headers = do
  n ← or_fail bad_content_length (content_length (get_header headers (codes "Content-Length")))
  (if is_chunked (get_header headers (codes "Transfer-Encoding"))
      then parse_chunked_body
      else at_length n)
