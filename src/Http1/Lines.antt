-- ===== src/Http1/Lines.antt =====
-- Lines and blocks of headers as pkg/http1 writes them, read back.
use gtest.Common.{
  ℕ, zero, suc, ◌≤◌, ◌<◌, ◌≡◌, ◌≢◌, refl, sym, ap, ◌∙◌, List, [], ◌∷◌, ◌++◌, append_assoc,
  append-nil, Bytes, length, length-append, All, All-append, ok, arith,
}
use gtest.Common.Texts.{cut-append, Lacks, trim_newlines, trim_newlines-crlf}
use gtest.Http1.Input.{read_line}
use gtest.Http1.{read_header_lines, read_headers}
use gtest.Http1.Send.{crlf, header_lines}

-- A text that is one line: no line feed in it, and no carriage return at its end.
pub record IsLine (l : Bytes) : Type 0 where
  pub one : Lacks b'\n' l
  pub whole : trim_newlines l ≡ l

pub read_line-line : (l rest : Bytes) → IsLine l → read_line (l ++ (crlf ++ rest)) ≡ (ok l, rest)
unfolding read_line
read_line-line l rest h =
    let shift : l ++ (crlf ++ rest) ≡ (l ++ (b'\r' ∷ [])) ++ (b'\n' ∷ rest) =
      sym (append_assoc l (b'\r' ∷ []) (b'\n' ∷ rest)) in
    let before : Lacks b'\n' (l ++ (b'\r' ∷ [])) =
      All-append (λ c. c ≢ b'\n') l (b'\r' ∷ []) h.one (omega arith, tt) in
    rw (
      shift,
      cut-append b'\n' (l ++ (b'\r' ∷ [])) rest before,
      append_assoc l (b'\r' ∷ []) (b'\n' ∷ []),
      trim_newlines-crlf l,
      h.whole,
    )

-- A header that does not end the block.
pub record IsHeader (l : Bytes) : Type 0 where
  pub line : IsLine l
  pub some_text : l ≢ []

read_header_lines-lines :
    (fuel : ℕ) (hs ls : List Bytes) (rest : Bytes)
    → All IsHeader ls
    → length ls < fuel
    → read_header_lines fuel hs (header_lines ls ++ (crlf ++ rest)) ≡ (ok (hs ++ ls), rest)
unfolding read_header_lines header_lines trim_newlines
read_header_lines-lines zero hs ls rest h enough = absurd (omega arith)
read_header_lines-lines (suc fuel) hs [] rest h enough =
    rw (read_line-line [] rest (record { one = tt; whole = refl }), append-nil hs)
read_header_lines-lines (suc fuel) hs ([] ∷ ls) rest (h, k) enough = absurd (h.some_text refl)
read_header_lines-lines (suc fuel) hs ((c ∷ cs) ∷ ls) rest (h, k) enough =
    let more = header_lines ls ++ (crlf ++ rest) in
    let shift : header_lines ((c ∷ cs) ∷ ls) ++ (crlf ++ rest) ≡ (c ∷ cs) ++ (crlf ++ more) =
      append_assoc (c ∷ cs) (crlf ++ header_lines ls) (crlf ++ rest) in
    let ih = read_header_lines-lines fuel (hs ++ ((c ∷ cs) ∷ [])) ls rest k (omega arith) in
    let keep : (hs ++ ((c ∷ cs) ∷ [])) ++ ls ≡ hs ++ ((c ∷ cs) ∷ ls) =
      append_assoc hs ((c ∷ cs) ∷ []) ls in
    rw (shift, read_line-line (c ∷ cs) more h.line)
      (ih ∙ ap (λ (l : List Bytes). (ok l, rest)) keep)

length-header_lines : (ls : List Bytes) → length ls ≤ length (header_lines ls)
unfolding header_lines
length-header_lines [] = omega arith
length-header_lines (l ∷ ls) =
    omega (arith, length-header_lines ls, length-append l (crlf ++ header_lines ls))

-- The headers of a block, and what follows it.
pub read_headers-lines :
    (ls : List Bytes) (rest : Bytes)
    → All IsHeader ls
    → read_headers (header_lines ls ++ (crlf ++ rest)) ≡ (ok ls, rest)
unfolding read_headers
read_headers-lines ls rest h =
    read_header_lines-lines _ [] ls rest h
      (omega (arith, length-header_lines ls, length-append (header_lines ls) (crlf ++ rest)))
