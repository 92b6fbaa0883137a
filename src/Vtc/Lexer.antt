-- ===== src/Vtc/Lexer.antt =====
-- `tokenize` and `tokenizeLine` of pkg/vtc/parser.go. The scanner's lines are given.
use gtest.Common.{
  ℕ, zero, suc, ◌+◌, Bool, true, false, ◌&&◌, ◌||◌, List, [], ◌∷◌, ◌++◌, Option, none, some, ◌==◌,
  if◌then◌else◌, Bytes, length, Result, ok, err, ◌>>=◌,
}
use gtest.Common.Texts.{cut, trim_space}
use gtest.Util.{strip_comments}
use gtest.Vtc.{
  Token, TokenKind, token_eof, token_command, token_string, token_lbrace, token_rbrace,
  token_identifier, ParseError, unterminated_string, scan_failed, stuck,
}

abbrev pub is_blank : ℕ → Bool
is_blank c = c == b' ' || c == b'\t'

-- `isDelimiter`
abbrev pub is_delimiter : ℕ → Bool
is_delimiter c = c == b' ' || c == b'\t' || c == b'{' || c == b'}' || c == b'"'

-- What the loop of `tokenizeLine` finds at a byte.
pub data Lexeme : Type 0 where
  blank opening closing unterminated : Lexeme
  reference quoted word : Bytes → Lexeme

abbrev pub before : ℕ → Bytes × Bytes → Bytes × Bytes
before c (a, b) = (c ∷ a, b)

abbrev pub before_some : ℕ → Option (Bytes × Bytes) → Option (Bytes × Bytes)
before_some c none = none
before_some c (some p) = some (before c p)

-- The bytes up to a delimiter, and the rest.
unfoldable pub span_word : Bytes → Bytes × Bytes
span_word [] = ([], [])
span_word (c ∷ cs) = if is_delimiter c then ([], c ∷ cs) else before c (span_word cs)

-- The bytes up to the closing quote, and what is behind it. A backslash keeps the byte behind it from
-- closing.
unfoldable pub close_quote : Bytes → Option (Bytes × Bytes)
close_quote [] = none
close_quote (c ∷ []) = if c == b'"' then some ([], []) else none
close_quote (c ∷ d ∷ s) =
    let one = close_quote (d ∷ s) in
    let two = close_quote s in
    if c == b'"'
    then some ([], d ∷ s)
    else if c == b'\\'
    then before_some c (before_some d two)
    else before_some c one

-- The name of a `${name}` in front, and what is behind it.
unfoldable pub reference_at : ℕ → Bytes → Option (Bytes × Bytes)
unfolding cut
reference_at c [] = none
reference_at c (d ∷ s) = if c == b'$' && d == b'{' then cut b'}' s else none

abbrev pub quoted_or : Option (Bytes × Bytes) → Lexeme × Bytes
quoted_or none = (unterminated, [])
quoted_or (some (a, b)) = (quoted a, b)

abbrev pub plain_lexeme : ℕ → Bytes → Lexeme × Bytes
plain_lexeme c cs =
    if c == b'{'
    then (opening, cs)
    else if c == b'}'
    then (closing, cs)
    else if c == b'"'
    then quoted_or (close_quote cs)
    else let (w, rest) = span_word (c ∷ cs) in (word w, rest)

abbrev pub reference_or : Lexeme × Bytes → Option (Bytes × Bytes) → Lexeme × Bytes
reference_or plain none = plain
reference_or plain (some (name, rest)) = (reference (b'$' ∷ b'{' ∷ (name ++ (b'}' ∷ []))), rest)

unfoldable pub next_lexeme : ℕ → Bytes → Lexeme × Bytes
unfolding reference_at close_quote span_word
next_lexeme c cs =
    if is_blank c then (blank, cs) else reference_or (plain_lexeme c cs) (reference_at c cs)

abbrev pub with_token : Token → Result ParseError (List Token) → Result ParseError (List Token)
with_token t r = r >>= λ ts. ok (t ∷ ts)

abbrev pub token_at : ℕ → ℕ → TokenKind → Bytes → Token
token_at line col kind value = record { kind = kind; value = value; line = line; col = col }

-- A round of the loop on what it found; `more` is the loop from there on. The column is not moved by a
-- reference or a string: `col += j - i + 1` runs behind `i = j + 1`.
abbrev pub emit :
    ℕ
    → Bool
    → ℕ
    → (Bool → ℕ → Result ParseError (List Token))
    → Lexeme
    → Result ParseError (List Token)
emit line first col more blank = more first (col + 1)
emit line first col more opening =
    with_token (token_at line col token_lbrace (b'{' ∷ [])) (more false (col + 1))
emit line first col more closing =
    with_token (token_at line col token_rbrace (b'}' ∷ [])) (more false (col + 1))
emit line first col more unterminated = err unterminated_string
emit line first col more (reference v) =
    with_token (token_at line col token_identifier v) (more false col)
emit line first col more (quoted v) = with_token (token_at line col token_string v) (more false col)
emit line first col more (word v) =
    with_token (token_at line col (if first then token_command else token_identifier) v)
      (more false (col + length v))

unfoldable pub lex : ℕ → ℕ → Bool → ℕ → Bytes → Result ParseError (List Token)
unfolding next_lexeme
lex zero line first col s = err stuck
lex (suc fuel) line first col [] = ok []
lex (suc fuel) line first col (c ∷ cs) =
    let (lexeme, rest) = next_lexeme c cs in
    emit line first col (λ first' col'. lex fuel line first' col' rest) lexeme

-- Each round takes a byte at least.
unfoldable pub tokenize_line : Bytes → ℕ → Result ParseError (List Token)
tokenize_line s line = lex (suc (length s)) line true 0 s

-- `TrimRight(line, " \t")`
abbrev pub kept_blank : ℕ → Bytes → Bytes
kept_blank c [] = if is_blank c then [] else c ∷ []
kept_blank c (d ∷ ds) = c ∷ d ∷ ds

unfoldable pub trim_blanks : Bytes → Bytes
trim_blanks [] = []
trim_blanks (c ∷ cs) = kept_blank c (trim_blanks cs)

-- What stands before a backslash at the end.
abbrev pub put_front : ℕ → Option Bytes → Option Bytes
put_front c none = none
put_front c (some s) = some (c ∷ s)

unfoldable pub before_backslash : Bytes → Option Bytes
before_backslash [] = none
before_backslash (c ∷ []) = if c == b'\\' then some [] else none
before_backslash (c ∷ d ∷ s) = put_front c (before_backslash (d ∷ s))

-- Comments and blanks go.
unfoldable pub stripped : Bytes → Bytes
unfolding strip_comments trim_space
stripped s = trim_space (strip_comments s)

-- The tokens of a line before those of the next; an error in a line comes before any later one.
abbrev pub line_tokens : ℕ → Bytes → Result ParseError (List Token) → Result ParseError (List Token)
line_tokens n [] more = more
line_tokens n (c ∷ cs) more = do ts ← tokenize_line (c ∷ cs) n; us ← more; ok (ts ++ us)

-- The end of the input. A line that was to be continued is dropped.
abbrev pub end_tokens : Bool → ℕ → Result ParseError (List Token)
end_tokens true n = err scan_failed
end_tokens false n = ok (token_at n 0 token_eof [] ∷ [])

unfoldable pub tokenize_lines : Bool → ℕ → Bytes → List Bytes → Result ParseError (List Token)
unfolding tokenize_line stripped trim_blanks before_backslash
tokenize_lines failed n continued [] = end_tokens failed n
tokenize_lines failed n continued (l ∷ ls) = elim (before_backslash (trim_blanks l)) [
  | some s ↦ tokenize_lines failed (n + 1) (continued ++ (s ++ (b' ' ∷ []))) ls
  | none ↦ line_tokens (n + 1) (stripped (continued ++ l)) (tokenize_lines failed (n + 1) [] ls)
]

-- `tokenize` on the lines of the scanner and whether it fails behind them.
unfoldable pub tokenize : Bool → List Bytes → Result ParseError (List Token)
unfolding tokenize_lines
tokenize failed ls = tokenize_lines failed 0 [] ls
