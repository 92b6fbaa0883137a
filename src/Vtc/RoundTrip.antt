-- ===== src/Vtc/RoundTrip.antt =====
-- Commands written as tokens, and parsed by `parseCommand` of pkg/vtc/parser.go.
use gtest.Common.{
  ℕ, zero, suc, ◌+◌, ◌<◌, ◌≤◌, ◌≡◌, refl, sym, ap, ◌∙◌, Bool, true, false, List, [], ◌∷◌, ◌++◌,
  append-nil, append_assoc, none, some, Bytes, length, ok, arith,
}
use gtest.Vtc.{
  Token, TokenKind, token_eof, token_command, token_string, token_lbrace, token_rbrace,
  token_comment, token_newline, token_identifier, root_node, vtest_node, command_node, Node, node,
  Nodes, no_nodes, add_node,
}
use gtest.Vtc.Parser.{
  peek, is_lbrace, opens_block, collect, collect_after, with_block, close_block, parse_command,
  parse_block,
}

abbrev pub token : ℕ → TokenKind → Bytes → Token
token line kind value = record { kind = kind; value = value; line = line; col = 0 }

unfoldable pub arg_tokens : ℕ → List Bytes → List Token → List Token
arg_tokens line [] rest = rest
arg_tokens line (a ∷ args) rest = token line token_string a ∷ arg_tokens line args rest

-- The tokens of a command before those of `rest`: its name, its arguments as strings, and its children
-- in braces, if it has any.
unfoldable mutual
  unfolding arg_tokens

  pub tokens_of : Node → List Token → List Token
  tokens_of (node kind name args children line) rest =
      token line token_command name ∷ arg_tokens line args (block_tokens line children rest)

  pub block_tokens : ℕ → Nodes → List Token → List Token
  block_tokens line no_nodes rest = rest
  block_tokens line (add_node n ns) rest =
      token line token_lbrace (b'{' ∷ [])
      ∷ tokens_of n (forest_tokens ns (token line token_rbrace (b'}' ∷ []) ∷ rest))

  pub forest_tokens : Nodes → List Token → List Token
  forest_tokens no_nodes rest = rest
  forest_tokens (add_node n ns) rest = tokens_of n (forest_tokens ns rest)

-- A tree of commands.
unfoldable mutual
  pub IsCommand : Node → Type 0
  IsCommand (node command_node name args children line) = AllCommands children
  IsCommand (node _ name args children line) = ⊥

  pub AllCommands : Nodes → Type 0
  AllCommands no_nodes = Unit
  AllCommands (add_node n ns) = IsCommand n × AllCommands ns

-- The end of a command: the next one, a closing brace, or the end.
abbrev pub stops : TokenKind → Bool
stops token_eof = true
stops token_rbrace = true
stops token_command = true
stops _ = false

abbrev pub Stops : List Token → Type 0
Stops ts = stops (peek ts).kind ≡ true

collect-Stops :
    (args : List Bytes) (ts : List Token) → Stops ts → collect none args ts ≡ ok (args, ts)
unfolding collect
collect-Stops args [] h = refl
collect-Stops args (t ∷ ts) h = go t.kind h
  where
    go :
        (k : TokenKind)
        → stops k ≡ true
        → collect none args (record t { kind = k } ∷ ts) ≡ ok (args, record t { kind = k } ∷ ts)
    go token_eof h = refl
    go token_rbrace h = refl
    go token_command h = refl
    go token_string h = cc
    go token_lbrace h = cc
    go token_comment h = cc
    go token_newline h = cc
    go token_identifier h = cc

collect_after-Stops :
    (args : List Bytes) (ts : List Token) → Stops ts → collect_after args ts ≡ (args, ts)
unfolding collect_after
collect_after-Stops args [] h = refl
collect_after-Stops args (t ∷ ts) h = go t.kind h
  where
    go :
        (k : TokenKind)
        → stops k ≡ true
        → collect_after args (record t { kind = k } ∷ ts) ≡ (args, record t { kind = k } ∷ ts)
    go token_eof h = refl
    go token_rbrace h = refl
    go token_command h = refl
    go token_string h = cc
    go token_lbrace h = cc
    go token_comment h = cc
    go token_newline h = cc
    go token_identifier h = cc

collect-arg_tokens :
    (line : ℕ) (args acc : List Bytes) (rest : List Token)
    → ((a : List Bytes) → collect none a rest ≡ ok (a, rest))
    → collect none acc (arg_tokens line args rest) ≡ ok (acc ++ args, rest)
unfolding collect arg_tokens
collect-arg_tokens line [] acc rest h = h acc ∙ ap (λ a. ok (a, rest)) (sym (append-nil acc))
collect-arg_tokens line (a ∷ args) acc rest h =
    collect-arg_tokens line args (acc ++ (a ∷ [])) rest h
    ∙ ap (λ b. ok (b, rest)) (append_assoc acc (a ∷ []) args)

-- A block opens with a command.
collect-block :
    (line : ℕ) (a : List Bytes) (ns : Nodes) (rest : List Token)
    → AllCommands ns
    → Stops rest
    → collect none a (block_tokens line ns rest) ≡ ok (a, block_tokens line ns rest)
unfolding collect block_tokens tokens_of opens_block AllCommands
collect-block line a no_nodes rest h s = collect-Stops a rest s
collect-block line a (add_node (node kind name args children l) ns) rest h s = refl

-- Behind a command another one or the end of the block stops it.
forest-Stops : (ns : Nodes) (rest : List Token) → Stops rest → Stops (forest_tokens ns rest)
unfolding forest_tokens
forest-Stops no_nodes rest h = h
forest-Stops (add_node (node kind name args children l) ns) rest h = refl

length-arg_tokens :
    (line : ℕ) (args : List Bytes) (rest : List Token)
    → length rest ≤ length (arg_tokens line args rest)
unfolding arg_tokens
length-arg_tokens line [] rest = omega arith
length-arg_tokens line (a ∷ args) rest = omega (arith, length-arg_tokens line args rest)

no_brace : (ts : List Token) → Stops ts → is_lbrace (peek ts).kind ≡ false
no_brace [] h = refl
no_brace (t ∷ ts) h = go t.kind h
  where
    go : (k : TokenKind) → stops k ≡ true → is_lbrace k ≡ false
    go token_lbrace h = cc
    go _ h = refl

-- A command takes a token at least.
mutual
  unfolding tokens_of

  pub length-tokens_of : (n : Node) (rest : List Token) → length rest < length (tokens_of n rest)
  length-tokens_of (node kind name args children line) rest = omega (
    arith,
    length-arg_tokens line args (block_tokens line children rest),
    length-block_tokens line children rest,
  )

  length-block_tokens :
      (line : ℕ) (ns : Nodes) (rest : List Token) → length rest ≤ length (block_tokens line ns rest)
  length-block_tokens line no_nodes rest = omega arith
  length-block_tokens line (add_node n ns) rest =
      let inner = token line token_rbrace (b'}' ∷ []) ∷ rest in
      omega (arith, length-tokens_of n (forest_tokens ns inner), length-forest_tokens ns inner)

  length-forest_tokens :
      (ns : Nodes) (rest : List Token) → length rest ≤ length (forest_tokens ns rest)
  length-forest_tokens no_nodes rest = omega arith
  length-forest_tokens (add_node n ns) rest =
      omega (arith, length-tokens_of n (forest_tokens ns rest), length-forest_tokens ns rest)

mutual
  unfolding tokens_of parse_command IsCommand close_block

  pub parse_command-tokens_of :
      (fuel : ℕ) (n : Node) (rest : List Token)
      → IsCommand n
      → Stops rest
      → length (tokens_of n rest) + length (tokens_of n rest) < fuel
      → parse_command fuel (tokens_of n rest) ≡ ok (some n, rest)
  parse_command-tokens_of zero n rest h s enough = absurd (omega arith)
  parse_command-tokens_of (suc fuel) (node command_node name args no_nodes line) rest h s enough =
      rw (collect-arg_tokens line args [] rest (λ a. collect-Stops a rest s)) (
        ap (with_block (parse_block fuel) (token line token_command name) args rest)
          (no_brace rest s))
  parse_command-tokens_of (suc fuel) (node command_node name args (add_node n ns) line) rest h s
        enough =
      let inner = block_tokens line (add_node n ns) rest in
      rw
        (collect-arg_tokens line args [] inner (λ a. collect-block line a (add_node n ns) rest h s))
        (rw (
          parse_block-forest_tokens fuel (add_node n ns) line rest h
              (omega (arith, length-arg_tokens line args inner)),
          close_block,
          collect_after-Stops args rest s,
        ))
  parse_command-tokens_of (suc fuel) (node root_node name args ns line) rest h s enough = absurd h
  parse_command-tokens_of (suc fuel) (node vtest_node name args ns line) rest h s enough = absurd h

  parse_block-forest_tokens :
      (fuel : ℕ) (ns : Nodes) (line : ℕ) (rest : List Token)
      → AllCommands ns
      → let ts = forest_tokens ns (token line token_rbrace (b'}' ∷ []) ∷ rest) in
        suc (length ts + length ts) < fuel
        → parse_block fuel ts ≡ ok (ns, token line token_rbrace (b'}' ∷ []) ∷ rest)
  parse_block-forest_tokens zero ns line rest h enough = absurd (omega arith)
  parse_block-forest_tokens (suc fuel) no_nodes line rest h enough = refl
  parse_block-forest_tokens (suc fuel) (add_node (node kind name args cs l) ns) line rest (h, hs)
        enough =
      let n = node kind name args cs l in
      let more = token line token_rbrace (b'}' ∷ []) ∷ rest in
      let after = forest_tokens ns more in
      rw (
        parse_command-tokens_of fuel n after h (forest-Stops ns more refl) (omega arith),
        parse_block-forest_tokens fuel ns line rest hs (omega (arith, length-tokens_of n after)),
      )
