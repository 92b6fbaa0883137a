-- ===== src/Vtc/Lines.antt =====
-- Lines of words, strings, references and braces, as `tokenizeLine` of pkg/vtc/parser.go reads them.
use gtest.Common.{
  ℕ, zero, suc, ◌+◌, ◌<◌, ◌≡◌, ◌≢◌, refl, sym, ap, ◌∙◌, Bool, true, false, List, [], ◌∷◌, ◌++◌,
  append-nil, append_assoc, none, some, ◌==◌, if◌then◌else◌, Bytes, length, length-append, All, ok,
  arith,
}
use gtest.Common.Texts.{cut-append, Lacks}
use gtest.Vtc.{Token, token_command, token_string, token_lbrace, token_rbrace, token_identifier}
use gtest.Vtc.Lexer.{
  is_blank, is_delimiter, Lexeme, blank, opening, closing, unterminated, reference, quoted, word,
  span_word, close_quote, reference_at, next_lexeme, token_at, with_token, lex, tokenize_line,
}

-- The text of a lexeme.
abbrev pub text : Lexeme → Bytes
text blank = b' ' ∷ []
text opening = b'{' ∷ []
text closing = b'}' ∷ []
text unterminated = b'"' ∷ []
text (reference v) = v
text (quoted v) = b'"' ∷ (v ++ (b'"' ∷ []))
text (word v) = v

-- A line of lexemes with a blank between two.
unfoldable pub line_of_lexemes : List Lexeme → Bytes
line_of_lexemes [] = []
line_of_lexemes (l ∷ []) = text l
line_of_lexemes (l ∷ m ∷ ls) = text l ++ (b' ' ∷ line_of_lexemes (m ∷ ls))

-- What a lexeme of such a line may hold.
abbrev pub IsLexeme : Lexeme → Type 0
IsLexeme blank = ⊥
IsLexeme opening = Unit
IsLexeme closing = Unit
IsLexeme unterminated = ⊥
IsLexeme (reference v) =
    (name : Bytes) × (v ≡ b'$' ∷ b'{' ∷ (name ++ (b'}' ∷ []))) × Lacks b'}' name
IsLexeme (quoted v) = Lacks b'"' v × Lacks b'\\' v
IsLexeme (word v) = (v ≢ []) × All (λ c. is_delimiter c ≡ false) v

-- The token of a lexeme at a column. A reference and a string count for no column.
abbrev pub token_of : ℕ → Bool → ℕ → Lexeme → Token
token_of line first col (word v) =
    token_at line col (if first then token_command else token_identifier) v
token_of line first col (quoted v) = token_at line col token_string v
token_of line first col opening = token_at line col token_lbrace (b'{' ∷ [])
token_of line first col closing = token_at line col token_rbrace (b'}' ∷ [])
token_of line first col (reference v) = token_at line col token_identifier v
token_of line first col _ = token_at line col token_identifier []

-- The column behind a lexeme.
abbrev pub column_after : ℕ → Lexeme → ℕ
column_after col (word v) = col + length v
column_after col opening = col + 1
column_after col closing = col + 1
column_after col _ = col

unfoldable pub line_tokens_of : ℕ → Bool → ℕ → List Lexeme → List Token
line_tokens_of line first col [] = []
line_tokens_of line first col (l ∷ ls) =
    token_of line first col l ∷ line_tokens_of line false (column_after col l + 1) ls

-- The end of a word.
abbrev Ends : Bytes → Type 0
Ends [] = Unit
Ends (c ∷ cs) = c ≡ b' '

span_word-Ends :
    (w rest : Bytes)
    → All (λ c. is_delimiter c ≡ false) w
    → Ends rest
    → span_word (w ++ rest) ≡ (w, rest)
unfolding span_word
span_word-Ends [] [] h e = refl
span_word-Ends [] (c ∷ cs) h e = rw e
span_word-Ends (c ∷ w) rest (h, hs) e = rw (h, span_word-Ends w rest hs e)

close_quote-append :
    (v rest : Bytes)
    → Lacks b'"' v
    → Lacks b'\\' v
    → close_quote (v ++ (b'"' ∷ rest)) ≡ some (v, rest)
unfolding close_quote
close_quote-append [] [] h k = refl
close_quote-append [] (c ∷ rest) h k = refl
close_quote-append (c ∷ []) rest (h, hs) (k, ks) =
    let one : (c == b'"') ≡ false = ground arith in
    let two : (c == b'\\') ≡ false = ground arith in rw (one, two, close_quote-append [] rest tt tt)
close_quote-append (c ∷ d ∷ v) rest (h, hs) (k, ks) =
    let one : (c == b'"') ≡ false = ground arith in
    let two : (c == b'\\') ≡ false = ground arith in
    rw (one, two, close_quote-append (d ∷ v) rest hs ks)

-- A word is no reference: a brace would end it.
reference_at-word :
    (c : ℕ) (w rest : Bytes)
    → All (λ c. is_delimiter c ≡ false) w
    → Ends rest
    → reference_at c (w ++ rest) ≡ none
unfolding reference_at
reference_at-word c [] [] h e = refl
reference_at-word c [] (d ∷ rest) h e = ground arith
reference_at-word c (d ∷ w) rest (h, hs) e = ground arith

next_lexeme-word :
    (c : ℕ) (w rest : Bytes)
    → All (λ c. is_delimiter c ≡ false) (c ∷ w)
    → Ends rest
    → next_lexeme c (w ++ rest) ≡ (word (c ∷ w), rest)
unfolding next_lexeme
next_lexeme-word c w rest (h, hs) e =
    let no_blank : is_blank c ≡ false = ground arith in
    let no_opening : (c == b'{') ≡ false = ground arith in
    let no_closing : (c == b'}') ≡ false = ground arith in
    let no_quote : (c == b'"') ≡ false = ground arith in
    rw (
      no_blank,
      no_opening,
      no_closing,
      no_quote,
      span_word-Ends w rest hs e,
      reference_at-word c w rest hs e,
    )

not_reference : (c : ℕ) (s : Bytes) → (c == b'$') ≡ false → reference_at c s ≡ none
unfolding reference_at
not_reference c [] h = refl
not_reference c (d ∷ s) h = rw h

next_lexeme-quoted :
    (v rest : Bytes)
    → IsLexeme (quoted v)
    → next_lexeme b'"' (v ++ (b'"' ∷ rest)) ≡ (quoted v, rest)
unfolding next_lexeme
next_lexeme-quoted v rest (h, k) =
    rw (close_quote-append v rest h k, not_reference b'"' (v ++ (b'"' ∷ rest)) refl)

next_lexeme-reference :
    (name rest : Bytes)
    → Lacks b'}' name
    → next_lexeme b'$' (b'{' ∷ (name ++ (b'}' ∷ rest)))
      ≡ (reference (b'$' ∷ b'{' ∷ (name ++ (b'}' ∷ []))), rest)
unfolding next_lexeme reference_at
next_lexeme-reference name rest h = rw (cut-append b'}' name rest h)

-- A round of the loop on a lexeme.
lex-text :
    (fuel line : ℕ) (first : Bool) (col : ℕ) (l : Lexeme) (rest : Bytes)
    → IsLexeme l
    → Ends rest
    → lex (suc fuel) line first col (text l ++ rest)
      ≡ with_token (token_of line first col l) (lex fuel line false (column_after col l) rest)
unfolding lex
lex-text fuel line first col opening rest h e = rw (not_reference b'{' rest refl)
lex-text fuel line first col closing rest h e = rw (not_reference b'}' rest refl)
lex-text fuel line first col (reference v) rest (name, eq, h) e =
    rw (eq, append_assoc name (b'}' ∷ []) rest, next_lexeme-reference name rest h)
lex-text fuel line first col (quoted v) rest h e =
    rw (append_assoc v (b'"' ∷ []) rest, next_lexeme-quoted v rest h)
lex-text fuel line first col (word []) rest (h, k) e = absurd (h refl)
lex-text fuel line first col (word (c ∷ v)) rest (h, k) e = rw (next_lexeme-word c v rest k e)
lex-text fuel line first col blank rest h e = absurd h
lex-text fuel line first col unterminated rest h e = absurd h

length-text : (l : Lexeme) → IsLexeme l → 0 < length (text l)
length-text opening h = omega arith
length-text closing h = omega arith
length-text (reference v) (name, eq, h) = rw eq (omega arith)
length-text (quoted v) h = omega arith
length-text (word []) (h, k) = absurd (h refl)
length-text (word (c ∷ v)) h = omega arith
length-text blank h = absurd h
length-text unterminated h = absurd h

lex_end : (fuel line : ℕ) (first : Bool) (col : ℕ) → 0 < fuel → lex fuel line first col [] ≡ ok []
unfolding lex
lex_end zero line first col h = absurd (omega arith)
lex_end (suc fuel) line first col h = refl

lex-blank :
    (fuel line : ℕ) (first : Bool) (col : ℕ) (s : Bytes)
    → lex (suc fuel) line first col (b' ' ∷ s) ≡ lex fuel line first (col + 1) s
unfolding lex next_lexeme
lex-blank fuel line first col s = refl

lex-line_of_lexemes :
    (fuel line : ℕ) (first : Bool) (col : ℕ) (ls : List Lexeme)
    → All IsLexeme ls
    → length (line_of_lexemes ls) < fuel
    → lex fuel line first col (line_of_lexemes ls) ≡ ok (line_tokens_of line first col ls)
unfolding line_of_lexemes line_tokens_of
lex-line_of_lexemes zero line first col ls h enough = absurd (omega arith)
lex-line_of_lexemes (suc fuel) line first col [] h enough =
    lex_end (suc fuel) line first col (omega arith)
lex-line_of_lexemes (suc fuel) line first col (l ∷ []) (h, hs) enough =
    ap (lex (suc fuel) line first col) (sym (append-nil (text l)))
    ∙ (lex-text fuel line first col l [] h tt
        ∙ ap (with_token (token_of line first col l))
            (lex_end fuel line false (column_after col l) (omega (arith, length-text l h))))
lex-line_of_lexemes (suc zero) line first col (l ∷ m ∷ ls) (h, hs) enough =
    absurd
      (omega (arith, length-text l h, length-append (text l) (b' ' ∷ line_of_lexemes (m ∷ ls))))
lex-line_of_lexemes (suc (suc fuel)) line first col (l ∷ m ∷ ls) (h, hs) enough =
    let rest = line_of_lexemes (m ∷ ls) in
    let more =
      lex-line_of_lexemes fuel line false (column_after col l + 1) (m ∷ ls) hs
        (omega (arith, length-text l h, length-append (text l) (b' ' ∷ rest))) in
    lex-text (suc fuel) line first col l (b' ' ∷ rest) h refl
    ∙ ap (with_token (token_of line first col l))
        (lex-blank fuel line false (column_after col l) rest ∙ more)

-- A line of words, strings without quotes or backslashes inside, references and braces, with a blank
-- between two, has their tokens: a word is a command where it is first, and the column counts words,
-- braces and blanks, but no string and no reference.
pub tokenize_line-line_of_lexemes :
    (line : ℕ) (ls : List Lexeme)
    → All IsLexeme ls
    → tokenize_line (line_of_lexemes ls) line ≡ ok (line_tokens_of line true 0 ls)
unfolding tokenize_line
tokenize_line-line_of_lexemes line ls h =
    lex-line_of_lexemes (suc (length (line_of_lexemes ls))) line true 0 ls h (omega arith)
