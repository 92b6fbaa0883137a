-- ===== src/Http1/Chunks.antt =====
-- Chunked bodies of pkg/http1, read back.
use gtest.Common.{
  ℕ, zero, suc, ◌+◌, ◌^◌, ◌≤◌, ◌<◌, ◌≡◌, ◌≢◌, refl, sym, ap, ◌∙◌, false, List, [], ◌∷◌, ◌++◌,
  append_assoc, append-nil, some, Bytes, ltb, length, length-append, take_append, drop_append, All,
  All-imp, ok, pos, arith,
}
use gtest.Common.Texts.{
  cut, cut-none, trim_newlines, trim_space, trim_front, trim_space-words, trim_newlines-words,
  Lacks,
}
use gtest.Common.Numerals.{
  hex, hex-IsWord, IsWord, parse_int, parse_digits, scan, numeral, parse_int-hex,
}
use gtest.Http1.Input.{read_line, read_bytes, max_alloc}
use gtest.Http1.{chunk_size, read_chunks, read_trailers, parse_chunked_body}
use gtest.Http1.Send.{crlf, send_chunked}
use gtest.Http1.Lines.{IsLine, read_line-line}

-- A body in the chunks of a list.
unfoldable pub in_chunks : List Bytes → Bytes
in_chunks [] = b'0' ∷ (crlf ++ crlf)
in_chunks (c ∷ cs) = hex (length c) ++ (crlf ++ (c ++ (crlf ++ in_chunks cs)))

unfoldable pub joined : List Bytes → Bytes
joined [] = []
joined (c ∷ cs) = c ++ joined cs

-- A chunk with some bytes, which can be allocated.
abbrev pub IsChunk : Bytes → Type 0
IsChunk c = (c ≢ []) × (length c ≤ max_alloc)

pub words-IsLine : (s : Bytes) → All IsWord s → IsLine s
words-IsLine s h = record {
  one = All-imp IsWord (λ c. c ≢ b'\n') (λ c p. omega (arith, p.0)) s h;
  whole = trim_newlines-words s h;
}

chunk_size-hex : (n : ℕ) → n < 2 ^ 63 → chunk_size (hex n) ≡ some (pos n)
unfolding chunk_size
chunk_size-hex n h =
    let bare : Lacks b';' (hex n) =
      All-imp IsWord (λ c. c ≢ b';') (λ c p. p.3) (hex n) (hex-IsWord n) in
    rw (cut-none b';' (hex n) bare, trim_space-words (hex n) (hex-IsWord n)) (parse_int-hex n h)

pub read_bytes-append :
    (c rest : Bytes) → length c ≤ max_alloc → read_bytes (pos (length c)) (c ++ rest) ≡ (ok c, rest)
unfolding read_bytes
read_bytes-append c rest h =
    let small : ltb max_alloc (length c) ≡ false = ground arith in
    let enough : ltb (length (c ++ rest)) (length c) ≡ false =
      ground (arith, length-append c rest) in
    rw (small, enough, take_append, drop_append)

-- The last chunk, with no trailer.
read_chunks-last :
    (fuel : ℕ) (body rest : Bytes)
    → read_chunks (suc (suc fuel)) body (b'0' ∷ (crlf ++ (crlf ++ rest))) ≡ (ok body, rest)
unfolding read_chunks read_trailers chunk_size read_line cut trim_newlines trim_space trim_front
    parse_int parse_digits scan
read_chunks-last fuel body rest = refl

read_chunks-in_chunks :
    (fuel : ℕ) (body : Bytes) (cs : List Bytes) (rest : Bytes)
    → All IsChunk cs
    → suc (length cs) < fuel
    → read_chunks fuel body (in_chunks cs ++ rest) ≡ (ok (body ++ joined cs), rest)
unfolding in_chunks joined read_chunks
read_chunks-in_chunks zero body cs rest h enough = absurd (omega arith)
read_chunks-in_chunks (suc zero) body cs rest h enough = absurd (omega arith)
read_chunks-in_chunks (suc (suc fuel)) body [] rest h enough =
    read_chunks-last fuel body rest ∙ ap (λ b. (ok b, rest)) (sym (append-nil body))
read_chunks-in_chunks (suc (suc fuel)) body ([] ∷ cs) rest ((h, k), hs) enough = absurd (h refl)
read_chunks-in_chunks (suc (suc fuel)) body ((c ∷ ch) ∷ cs) rest ((h, k), hs) enough =
    let chunk = c ∷ ch in
    let size = hex (length chunk) in
    let more = in_chunks cs ++ rest in
    let shift : in_chunks (chunk ∷ cs) ++ rest ≡ size ++ (crlf ++ (chunk ++ (crlf ++ more))) =
      append_assoc size (crlf ++ (chunk ++ (crlf ++ in_chunks cs))) rest
      ∙ ap (λ b. size ++ (crlf ++ b)) (append_assoc chunk (crlf ++ in_chunks cs) rest) in
    let empty : IsLine [] = words-IsLine [] tt in
    let ih = read_chunks-in_chunks (suc fuel) (body ++ chunk) cs rest hs (omega arith) in
    rw
      (
        shift,
        read_chunks,
        read_line-line size (chunk ++ (crlf ++ more))
            (words-IsLine size (hex-IsWord (length chunk))),
        chunk_size-hex (length chunk) (omega arith),
        read_bytes-append chunk (crlf ++ more) k,
        read_line-line [] more empty,
      )
      (ih ∙ ap (λ b. (ok b, rest)) (append_assoc body chunk (joined cs)))

length-in_chunks : (cs : List Bytes) → length cs + 5 ≤ length (in_chunks cs)
unfolding in_chunks
length-in_chunks [] = omega arith
length-in_chunks (c ∷ cs) = omega (
  arith,
  length-append (hex (length c)) (crlf ++ (c ++ (crlf ++ in_chunks cs))),
  length-append c (crlf ++ in_chunks cs),
  length-in_chunks cs,
)

empty_chunk :
    (rest : Bytes) → send_chunked [] ++ rest ≡ b'0' ∷ (crlf ++ (crlf ++ (in_chunks [] ++ rest)))
unfolding send_chunked in_chunks numeral
empty_chunk rest = refl

parse_empty_chunk :
    (rest : Bytes) → parse_chunked_body (send_chunked [] ++ rest) ≡ (ok [], in_chunks [] ++ rest)
unfolding parse_chunked_body
parse_empty_chunk rest = rw (empty_chunk rest) (read_chunks-last _ [] (in_chunks [] ++ rest))

-- A body in any chunks that are not empty and can be allocated is read back joined by
-- `ParseChunkedBody`, and what follows it is left. `sendChunked` writes a body that is not empty in
-- one chunk; after an empty one a second last chunk is left unread.
pub parse_chunked_body-in_chunks :
    (cs : List Bytes) (rest : Bytes)
    → All IsChunk cs
    → (parse_chunked_body (in_chunks cs ++ rest) ≡ (ok (joined cs), rest))
      × ((body : Bytes) → send_chunked body ≡ in_chunks (body ∷ []))
      × (parse_chunked_body (send_chunked [] ++ rest) ≡ (ok [], in_chunks [] ++ rest))
unfolding parse_chunked_body in_chunks send_chunked
parse_chunked_body-in_chunks cs rest h = (
  read_chunks-in_chunks (suc (length (in_chunks cs ++ rest))) [] cs rest h
      (omega (arith, length-in_chunks cs, length-append (in_chunks cs) rest)),
  λ body. refl,
  parse_empty_chunk rest,
)
