-- ===== src/Vtc/Parser.antt =====
-- The tree of pkg/vtc/parser.go: a parser takes the tokens from its position on, and gives back those
-- that are left.
use gtest.Common.{
  ℕ, zero, suc, ◌+◌, ◌*◌, Bool, true, false, not, ◌&&◌, ◌||◌, List, [], ◌∷◌, ◌++◌, Option, none,
  some, ◌==◌, if◌then◌else◌, Bytes, codes, bytes_eq, length, Result, ok, err, ◌>>=◌,
}
use gtest.Common.Numerals.{digit_value, in_base}
use gtest.Vtc.{
  Token, TokenKind, token_eof, token_command, token_string, token_lbrace, token_rbrace,
  token_identifier, root_node, vtest_node, command_node, Node, node, Nodes, no_nodes, add_node,
  ParseError, unclosed_brace, unclosed_block, expected_name, stuck,
}

abbrev pub no_token : Token
no_token = record { kind = token_eof; value = []; line = 0; col = 0 }

abbrev pub peek : List Token → Token
peek [] = no_token
peek (t ∷ ts) = t

abbrev pub consume : List Token → List Token
consume [] = []
consume (t ∷ ts) = ts

abbrev pub keywords : List Bytes
keywords =
    codes "rxreq"
    ∷ codes "txreq"
    ∷ codes "rxresp"
    ∷ codes "txresp"
    ∷ codes "expect"
    ∷ codes "send"
    ∷ codes "sendhex"
    ∷ codes "recv"
    ∷ codes "delay"
    ∷ codes "barrier"
    ∷ codes "shell"
    ∷ codes "process"
    ∷ codes "timeout"
    ∷ codes "gunzip"
    ∷ codes "client"
    ∷ codes "server"
    ∷ []

abbrev pub is_one_of : Bytes → List Bytes → Bool
is_one_of s [] = false
is_one_of s (k ∷ ks) = bytes_eq s k || is_one_of s ks

unfoldable pub is_command_keyword : Bytes → Bool
is_command_keyword s = is_one_of s keywords

abbrev pub is_command : TokenKind → Bool
is_command token_command = true
is_command _ = false

abbrev pub is_identifier : TokenKind → Bool
is_identifier token_identifier = true
is_identifier _ = false

abbrev pub is_string : TokenKind → Bool
is_string token_string = true
is_string _ = false

abbrev pub is_eof : TokenKind → Bool
is_eof token_eof = true
is_eof _ = false

abbrev pub is_lbrace : TokenKind → Bool
is_lbrace token_lbrace = true
is_lbrace _ = false

abbrev pub is_rbrace : TokenKind → Bool
is_rbrace token_rbrace = true
is_rbrace _ = false

-- The two digits of `\xHH`, or the backslash alone.
abbrev pub hex_or_backslash : Option ℕ → Option ℕ → ℕ × ℕ
hex_or_backslash (some h) (some l) = (h * 16 + l, 3)
hex_or_backslash _ _ = (b'\\', 0)

abbrev pub hex_escape : Bytes → ℕ × ℕ
hex_escape (h ∷ l ∷ s) = hex_or_backslash (in_base 16 (digit_value h)) (in_base 16 (digit_value l))
hex_escape _ = (b'\\', 0)

-- The byte that is written for a byte, and how many of those behind it are skipped.
abbrev pub escape : ℕ → Bytes → ℕ × ℕ
escape c [] = (c, 0)
escape c (d ∷ s) =
    if not (c == b'\\')
    then (c, 0)
    else if d == b'0'
    then (0, 1)
    else if d == b'n'
    then (b'\n', 1)
    else if d == b'r'
    then (b'\r', 1)
    else if d == b't'
    then (b'\t', 1)
    else if d == b'\\'
    then (b'\\', 1)
    else if d == b'x'
    then hex_escape s
    else (c, 0)

unfoldable pub escape_from : ℕ → Bytes → Bytes
escape_from skip [] = []
escape_from (suc skip) (c ∷ s) = escape_from skip s
escape_from zero (c ∷ s) = let (b, skip) = escape c s in b ∷ escape_from skip s

unfoldable pub process_escape_sequences : Bytes → Bytes
process_escape_sequences s = escape_from 0 s

-- `strings.Join(parts, " ")`
abbrev pub join_blank : List Bytes → Bytes
join_blank [] = []
join_blank (s ∷ []) = s
join_blank (s ∷ t ∷ ss) = s ++ (b' ' ∷ join_blank (t ∷ ss))

-- A brace opens a block if a command or a keyword is the first token inside.
unfoldable pub opens_block : List Token → Bool
unfolding is_command_keyword
opens_block inside = is_command (peek inside).kind || is_command_keyword (peek inside).value

-- The loop over the arguments. Inside braces that are a string, the parts of it are kept.
unfoldable pub collect :
    Option (List Bytes) → List Bytes → List Token → Result ParseError (List Bytes × List Token)
unfolding opens_block process_escape_sequences
collect (some parts) args [] = err unclosed_brace
collect none args [] = ok (args, [])
collect (some parts) args (t ∷ ts) = elim t.kind [
  | token_eof ↦ err unclosed_brace
  | token_rbrace ↦ collect none (args ++ (process_escape_sequences (join_blank parts) ∷ [])) ts
  | _ ↦ collect (some (parts ++ (t.value ∷ []))) args ts
]
collect none args (t ∷ ts) = elim t.kind [
  | token_eof ↦ ok (args, t ∷ ts)
  | token_rbrace ↦ ok (args, t ∷ ts)
  | token_command ↦ ok (args, t ∷ ts)
  | token_lbrace ↦ elim (opens_block ts) [
    | true ↦ ok (args, t ∷ ts)
    | false ↦ collect (some []) args ts
  ]
  | token_string ↦ collect none (args ++ (t.value ∷ [])) ts
  | token_identifier ↦ collect none (args ++ (t.value ∷ [])) ts
  | _ ↦ collect none args ts
]

-- The loop over the arguments behind a block.
unfoldable pub collect_after : List Bytes → List Token → List Bytes × List Token
collect_after args [] = (args, [])
collect_after args (t ∷ ts) = elim t.kind [
  | token_eof ↦ (args, t ∷ ts)
  | token_lbrace ↦ (args, t ∷ ts)
  | token_rbrace ↦ (args, t ∷ ts)
  | token_command ↦ (args, t ∷ ts)
  | token_string ↦ collect_after (args ++ (t.value ∷ [])) ts
  | token_identifier ↦ collect_after (args ++ (t.value ∷ [])) ts
  | _ ↦ collect_after args ts
]

abbrev pub add_optional : Option Node → Nodes → Nodes
add_optional none ns = ns
add_optional (some n) ns = add_node n ns

-- The end of a block, and the command with it.
unfoldable pub close_block :
    Token → List Bytes → Nodes → List Token → Result ParseError (Option Node × List Token)
unfolding collect_after
close_block cmd args children ts =
    if is_rbrace (peek ts).kind
    then (let (more, rest) = collect_after args (consume ts) in
        ok (some (node command_node cmd.value more children cmd.line), rest))
    else err unclosed_block

-- The block of a command, if there is a brace.
abbrev pub with_block :
    (List Token → Result ParseError (Nodes × List Token))
    → Token
    → List Bytes
    → List Token
    → Bool
    → Result ParseError (Option Node × List Token)
with_block block cmd args after false =
    ok (some (node command_node cmd.value args no_nodes cmd.line), after)
with_block block cmd args after true = do
  (children, end) ← block (consume after)
  close_block cmd args children end

-- `parseCommand`, and the loop over the commands of a block. A token that no command begins with is
-- not taken.
unfoldable mutual
  unfolding collect close_block

  pub parse_command : ℕ → List Token → Result ParseError (Option Node × List Token)
  parse_command zero ts = err stuck
  parse_command (suc fuel) ts = elim (is_command (peek ts).kind || is_identifier (peek ts).kind) [
    | false ↦ ok (none, ts)
    | true ↦ do
      (args, after) ← collect none [] (consume ts)
      with_block (parse_block fuel) (peek ts) args after (is_lbrace (peek after).kind)
  ]

  pub parse_block : ℕ → List Token → Result ParseError (Nodes × List Token)
  parse_block zero ts = err stuck
  parse_block (suc fuel) ts = elim (is_rbrace (peek ts).kind || is_eof (peek ts).kind) [
    | true ↦ ok (no_nodes, ts)
    | false ↦ do
      (child, rest) ← parse_command fuel ts
      (children, end) ← parse_block fuel rest
      ok (add_optional child children, end)
  ]

unfoldable pub parse_vtest : List Token → Result ParseError (Option Node × List Token)
parse_vtest ts =
    let name = peek (consume ts) in
    if is_string name.kind || is_identifier name.kind
    then ok (some (node vtest_node name.value [] no_nodes name.line), consume (consume ts))
    else err expected_name

unfoldable pub parse_statement : ℕ → List Token → Result ParseError (Option Node × List Token)
unfolding parse_command parse_vtest
parse_statement fuel ts =
    if is_eof (peek ts).kind
    then ok (none, ts)
    else if is_command (peek ts).kind && bytes_eq (peek ts).value (codes "vtest")
    then parse_vtest ts
    else parse_command fuel ts

-- The loop of `Parse`, until `isEOF`.
unfoldable pub parse_statements : ℕ → List Token → Result ParseError Nodes
unfolding parse_statement
parse_statements zero ts = err stuck
parse_statements (suc fuel) ts = elim (is_eof (peek ts).kind) [
  | true ↦ ok no_nodes
  | false ↦ do
    (child, rest) ← parse_statement fuel ts
    children ← parse_statements fuel rest
    ok (add_optional child children)
]

-- `Parse` on the tokens. Each call takes a token or is the last on it.
unfoldable pub parse : List Token → Result ParseError Node
unfolding parse_statements
parse ts = do
  children ← parse_statements (suc (suc (length ts + length ts))) ts
  ok (node root_node [] [] children 0)
