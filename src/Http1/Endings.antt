-- ===== src/Http1/Endings.antt =====
-- The loops of pkg/http1/http.go, rxreq.go and rxresp.go end: on every input, with the fuel they are given.
use gtest.Common.{
  ℕ, zero, suc, ◌+◌, ◌==◌, ◌≤◌, ◌<◌, ◌≡◌, ◌≢◌, Bool, true, false, ◌||◌, if◌then◌else◌, List, [],
  ◌∷◌, ◌++◌, Option, none, some, Bytes, codes, length, length-drop, ltb, ℤ, pos, negsuc, Result, ok,
  err, Bool-cases, inl, inr, arith,
}
use gtest.Common.Texts.{cut, put_before}
use gtest.Common.Numerals.{atoi}
use gtest.Http1.{
  Http, at_line, at_size, at_length, read_trailers, chunk_size, read_chunks, parse_chunked_body,
  read_header_lines, read_headers, read_body, is_chunked, content_length, get_header, reset_request,
  reset_response,
}
use gtest.Http1.Input.{
  HttpError, stuck, Reader, pure, followed, bad_chunk_size, bad_request_line, bad_content_length,
  bad_status_line, bad_status, ◌>>=◌, ◌>>◌, or_fail, line_of, read_line, read_bytes, max_alloc,
}
use gtest.Http1.Receive.{
  rx_req_from, rx_req, rx_resp_from, rx_resp, left, request_line, split_line, has_no_body,
}

-- A reader came to an end, and left so many of `n` bytes untaken.
abbrev IsDone {ℓ} : {A : Type ℓ} → ℕ → ℕ → Result HttpError A × Bytes → Type 0
IsDone k n (ok a, rest) = k + length rest ≤ n
IsDone k n (err e, rest) = e ≢ stuck

followed-IsDone {ℓ κ} :
    {A : Type ℓ} {B : Type κ} (k n j m : ℕ) (f : A → Reader B) (x : Result HttpError A × Bytes)
    → IsDone k n x
    → ((a : A) (rest : Bytes) → k + length rest ≤ n → IsDone j m (f a rest))
    → IsDone j m (followed f x)
followed-IsDone k n j m f (ok a, rest) h g = g a rest h
followed-IsDone k n j m f (err e, rest) h g = h

or_fail-IsDone {ℓ} :
    {A : Type ℓ} (n : ℕ) (e : HttpError) (o : Option A) (r : Bytes)
    → e ≢ stuck
    → length r ≤ n
    → IsDone 0 n (or_fail e o r)
or_fail-IsDone n e none r h k = h
or_fail-IsDone n e (some a) r h k = omega arith

put_before-IsDone :
    (n c : ℕ) (o : Option (Bytes × Bytes))
    → IsDone 1 n (line_of o)
    → IsDone 1 n (line_of (put_before c o))
put_before-IsDone n c none h = h
put_before-IsDone n c (some (a, b)) h = h

-- A line takes a byte at least.
read_line-IsDone : (n : ℕ) (r : Bytes) → length r ≤ n → IsDone 1 n (read_line r)
unfolding read_line cut
read_line-IsDone n [] h = λ e. cc
read_line-IsDone n (c ∷ r) h = elim (Bool-cases (c == b'\n')) [
  | inl e ↦ rw e (omega arith)
  | inr e ↦ rw e (put_before-IsDone n c (cut b'\n' r) (read_line-IsDone n r (omega arith)))
]

read_bytes-IsDone : (n : ℕ) (k : ℤ) (r : Bytes) → length r ≤ n → IsDone 0 n (read_bytes k r)
unfolding read_bytes
read_bytes-IsDone n (negsuc k) r h = λ e. cc
read_bytes-IsDone n (pos k) r h = elim (Bool-cases (ltb max_alloc k)) [
  | inl e ↦ rw e (λ f. cc)
  | inr e ↦ elim (Bool-cases (ltb (length r) k)) [
    | inl f ↦ rw (e, f) (λ f. cc)
    | inr f ↦ rw (e, f) (omega (arith, length-drop k r))
  ]
]

at_line-IsDone {ℓ} :
    {A : Type ℓ} (n : ℕ) (last : Reader A) (more : Bytes → Reader A) (line rest : Bytes)
    → IsDone 0 n (last rest)
    → ((l : Bytes) → IsDone 0 n (more l rest))
    → IsDone 0 n (at_line last more line rest)
at_line-IsDone n last more [] rest h k = h
at_line-IsDone n last more (c ∷ cs) rest h k = k (c ∷ cs)

at_size-IsDone {ℓ} :
    {A : Type ℓ} (n : ℕ) (last : Reader A) (more : ℤ → Reader A) (size : ℤ) (rest : Bytes)
    → IsDone 0 n (last rest)
    → ((z : ℤ) → IsDone 0 n (more z rest))
    → IsDone 0 n (at_size last more size rest)
at_size-IsDone n last more (pos zero) rest h k = h
at_size-IsDone n last more (pos (suc m)) rest h k = k (pos (suc m))
at_size-IsDone n last more (negsuc m) rest h k = k (negsuc m)

read_trailers-IsDone :
    (fuel n : ℕ) (r : Bytes) → length r < fuel → length r ≤ n → IsDone 0 n (read_trailers fuel r)
unfolding read_trailers
read_trailers-IsDone zero n r h k = absurd (omega arith)
read_trailers-IsDone (suc fuel) n r h k =
    followed-IsDone 1 (length r) 0 n _ (read_line r) (read_line-IsDone (length r) r (omega arith))
      (λ line rest l.
        at_line-IsDone n (pure tt) (λ _. read_trailers fuel) line rest (omega arith)
          (λ _. read_trailers-IsDone fuel n rest (omega arith) (omega arith)))

read_header_lines-IsDone :
    (fuel n : ℕ) (hs : List Bytes) (r : Bytes)
    → length r < fuel
    → length r ≤ n
    → IsDone 0 n (read_header_lines fuel hs r)
unfolding read_header_lines
read_header_lines-IsDone zero n hs r h k = absurd (omega arith)
read_header_lines-IsDone (suc fuel) n hs r h k =
    followed-IsDone 1 (length r) 0 n _ (read_line r) (read_line-IsDone (length r) r (omega arith))
      (λ line rest l.
        at_line-IsDone n (pure hs) (λ hdr. read_header_lines fuel (hs ++ (hdr ∷ []))) line rest
          (omega arith)
          (λ hdr.
            read_header_lines-IsDone fuel n (hs ++ (hdr ∷ [])) rest (omega arith) (omega arith)))

-- A chunk and its end, and then what follows.
chunk-IsDone :
    (n : ℕ) (size : ℤ) (next : Bytes → Reader Bytes) (r : Bytes)
    → ((chunk rest : Bytes) → length rest ≤ length r → IsDone 0 n (next chunk rest))
    → IsDone 0 n ((do chunk ← read_bytes size; read_line; next chunk) r)
chunk-IsDone n size next r h =
    followed-IsDone 0 (length r) 0 n _ (read_bytes size r)
      (read_bytes-IsDone (length r) size r (omega arith))
      (λ chunk rest l.
        followed-IsDone 1 (length r) 0 n _ (read_line rest)
          (read_line-IsDone (length r) rest (omega arith))
          (λ line after k. h chunk after (omega arith)))

read_chunks-IsDone :
    (fuel n : ℕ) (body r : Bytes)
    → length r < fuel
    → length r ≤ n
    → IsDone 0 n (read_chunks fuel body r)
unfolding read_chunks
read_chunks-IsDone zero n body r h k = absurd (omega arith)
read_chunks-IsDone (suc fuel) n body r h k =
    followed-IsDone 1 (length r) 0 n _ (read_line r) (read_line-IsDone (length r) r (omega arith))
      (λ line rest l.
        followed-IsDone 0 (length rest) 0 n _ (or_fail bad_chunk_size (chunk_size line) rest)
          (or_fail-IsDone (length rest) bad_chunk_size (chunk_size line) rest (λ e. cc)
            (omega arith))
          (λ size after m.
            at_size-IsDone n (read_trailers fuel >> pure body)
              (λ z. do chunk ← read_bytes z; read_line; read_chunks fuel (body ++ chunk)) size after
              (followed-IsDone 0 (length after) 0 n _ (read_trailers fuel after)
                (read_trailers-IsDone fuel (length after) after (omega arith) (omega arith))
                (λ _ end e. omega arith))
              (λ z.
                chunk-IsDone n z (λ chunk. read_chunks fuel (body ++ chunk)) after
                  (λ chunk end e.
                    read_chunks-IsDone fuel n (body ++ chunk) end (omega arith) (omega arith)))))

read_headers-IsDone : (m : ℕ) (r : Bytes) → length r ≤ m → IsDone 0 m (read_headers r)
unfolding read_headers
read_headers-IsDone m r h = read_header_lines-IsDone (suc (length r)) m [] r (omega arith) h

at_length-IsDone : (m : ℕ) (n : ℤ) (r : Bytes) → length r ≤ m → IsDone 0 m (at_length n r)
at_length-IsDone m (pos zero) r h = omega arith
at_length-IsDone m (pos (suc n)) r h = read_bytes-IsDone m (pos (suc n)) r h
at_length-IsDone m (negsuc n) r h = omega arith

either-IsDone :
    (m : ℕ) (b : Bool) (p q : Reader Bytes) (r : Bytes)
    → IsDone 0 m (p r)
    → IsDone 0 m (q r)
    → IsDone 0 m ((if b then p else q) r)
either-IsDone m true p q r h k = h
either-IsDone m false p q r h k = k

read_body-IsDone :
    (m : ℕ) (headers : List Bytes) (r : Bytes) → length r ≤ m → IsDone 0 m (read_body headers r)
unfolding read_body parse_chunked_body
read_body-IsDone m headers r h =
    let n = content_length (get_header headers (codes "Content-Length")) in
    followed-IsDone 0 m 0 m _ (or_fail bad_content_length n r)
      (or_fail-IsDone m bad_content_length n r (λ e. cc) h)
      (λ k rest l.
        either-IsDone m (is_chunked (get_header headers (codes "Transfer-Encoding")))
          parse_chunked_body (at_length k) rest
          (read_chunks-IsDone (suc (length rest)) m [] rest (omega arith) (omega arith))
          (at_length-IsDone m k rest (omega arith)))

err_inj : (e f : HttpError) → ◌≡◌ {A = Result HttpError Http} (err e) (err f) → e ≡ f
err_inj e f h = cc

-- The rest of a session after the reader.
left_ends : (n : ℕ) (x : Result HttpError Http × Bytes) → IsDone 0 n x → left x ≢ err stuck
left_ends n (ok h, rest) d e = cc
left_ends n (err f, rest) d e = d (err_inj f stuck e)

rx_req_from-IsDone : (m : ℕ) (h : Http) (r : Bytes) → length r ≤ m → IsDone 0 m (rx_req_from h r)
unfolding rx_req_from
rx_req_from-IsDone m h r small =
    followed-IsDone 1 m 0 m _ (read_line r) (read_line-IsDone m r small) (λ line a l.
      followed-IsDone 0 m 0 m _ (or_fail bad_request_line (request_line line) a)
        (or_fail-IsDone m bad_request_line (request_line line) a (λ e. cc) (omega arith))
        (λ parts b k.
          followed-IsDone 0 m 0 m _ (read_headers b) (read_headers-IsDone m b (omega arith))
            (λ headers c j.
              followed-IsDone 0 m 0 m _ (read_body headers c)
                (read_body-IsDone m headers c (omega arith)) (λ body d i. i))))

rx_resp_from-IsDone :
    (m : ℕ) (no_obj : Bool) (h : Http) (r : Bytes)
    → length r ≤ m
    → IsDone 0 m (rx_resp_from no_obj h r)
unfolding rx_resp_from
rx_resp_from-IsDone m no_obj h r small =
    followed-IsDone 1 m 0 m _ (read_line r) (read_line-IsDone m r small) (λ line a l.
      followed-IsDone 0 m 0 m _ (or_fail bad_status_line (split_line line) a)
        (or_fail-IsDone m bad_status_line (split_line line) a (λ e. cc) (omega arith))
        (λ parts b k.
          followed-IsDone 0 m 0 m _ (or_fail bad_status (atoi parts.1) b)
            (or_fail-IsDone m bad_status (atoi parts.1) b (λ e. cc) (omega arith))
            (λ status b' k'.
              followed-IsDone 0 m 0 m _ (read_headers b') (read_headers-IsDone m b' (omega arith))
                (λ headers c j.
                  followed-IsDone 0 m 0 m _
                    ((if no_obj || h.head_method || has_no_body status
                        then pure []
                        else read_body headers)
                      c)
                    (either-IsDone m (no_obj || h.head_method || has_no_body status) (pure [])
                      (read_body headers) c j (read_body-IsDone m headers c (omega arith)))
                    (λ body d i. i)))))

-- On every input `RxReq` and `RxResp` come to an end, with a session or with an error of the program:
-- the loops over header lines, chunks and trailers need no more rounds than there are bytes.
pub rx_ends : (h : Http) (no_obj : Bool) → (rx_req h ≢ err stuck) × (rx_resp no_obj h ≢ err stuck)
unfolding rx_req rx_resp
rx_ends h no_obj =
    let n = length h.received in
    (
      left_ends n (rx_req_from (reset_request h) h.received)
          (rx_req_from-IsDone n (reset_request h) h.received (omega arith)),
      left_ends n (rx_resp_from no_obj (reset_response h) h.received)
          (rx_resp_from-IsDone n no_obj (reset_response h) h.received (omega arith)),
    )
