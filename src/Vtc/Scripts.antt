-- ===== src/Vtc/Scripts.antt =====
-- Whole scripts written as tokens, and parsed by `Parse` of pkg/vtc/parser.go.
use gtest.Common.{
  ℕ, zero, suc, ◌+◌, ◌<◌, ◌≡◌, ◌≢◌, refl, false, List, [], ◌∷◌, some, codes, bytes_eq,
  bytes_eq-false, length, ok, arith,
}
use gtest.Vtc.{
  Token, token_eof, token_command, token_string, root_node, vtest_node, command_node, Node, node,
  Nodes, no_nodes, add_node,
}
use gtest.Vtc.Parser.{peek, is_eof, parse_vtest, parse_statement, parse_statements, parse}
use gtest.Vtc.RoundTrip.{
  token, tokens_of, AllCommands, IsCommand, Stops, length-tokens_of, parse_command-tokens_of,
}

-- A statement of a script: the declaration of a test, or a command that is not called so.
abbrev pub IsStatement : Node → Type 0
IsStatement (node vtest_node name args children line) = (args ≡ []) × (children ≡ no_nodes)
IsStatement (node command_node name args children line) =
    (name ≢ codes "vtest") × AllCommands children
IsStatement (node root_node name args children line) = ⊥

abbrev pub AllStatements : Nodes → Type 0
AllStatements no_nodes = Unit
AllStatements (add_node n ns) = IsStatement n × AllStatements ns

abbrev pub statement_tokens : Node → List Token → List Token
statement_tokens (node vtest_node name args children line) rest =
    token line token_command (codes "vtest") ∷ token line token_string name ∷ rest
statement_tokens (node command_node name args children line) rest =
    tokens_of (node command_node name args children line) rest
statement_tokens (node root_node name args children line) rest = rest

-- The tokens of a script, with the one for its end.
unfoldable pub script_tokens : Nodes → List Token
unfolding tokens_of
script_tokens no_nodes = token 0 token_eof [] ∷ []
script_tokens (add_node n ns) = statement_tokens n (script_tokens ns)

script-Stops : (ns : Nodes) → AllStatements ns → Stops (script_tokens ns)
unfolding script_tokens tokens_of
script-Stops no_nodes h = refl
script-Stops (add_node (node vtest_node name args children line) ns) h = refl
script-Stops (add_node (node command_node name args children line) ns) h = refl
script-Stops (add_node (node root_node name args children line) ns) (h, hs) = absurd h

pub parse_statement-tokens :
    (fuel : ℕ) (n : Node) (rest : List Token)
    → IsStatement n
    → Stops rest
    → length (statement_tokens n rest) + length (statement_tokens n rest) < fuel
    → parse_statement fuel (statement_tokens n rest) ≡ ok (some n, rest)
unfolding parse_statement parse_vtest tokens_of IsCommand bytes_eq
parse_statement-tokens fuel (node vtest_node name args children line) rest (h, k) s enough =
    rw (h, k) refl
parse_statement-tokens fuel (node root_node name args children line) rest h s enough = absurd h
parse_statement-tokens fuel (node command_node name args children line) rest (h, k) s enough =
    let other : bytes_eq name (codes "vtest") ≡ false = bytes_eq-false name (codes "vtest") h in
    rw other
      (parse_command-tokens_of fuel (node command_node name args children line) rest k s enough)

pub length-statement_tokens :
    (n : Node) (rest : List Token) → IsStatement n → length rest < length (statement_tokens n rest)
length-statement_tokens (node vtest_node name args children line) rest h = omega arith
length-statement_tokens (node command_node name args children line) rest h =
    length-tokens_of (node command_node name args children line) rest
length-statement_tokens (node root_node name args children line) rest h = absurd h

pub more_tokens :
    (n : Node) (rest : List Token)
    → IsStatement n
    → is_eof (peek (statement_tokens n rest)).kind ≡ false
unfolding tokens_of
more_tokens (node vtest_node name args children line) rest h = refl
more_tokens (node command_node name args children line) rest h = refl
more_tokens (node root_node name args children line) rest h = absurd h

parse_statements-script :
    (fuel : ℕ) (ns : Nodes)
    → AllStatements ns
    → suc (length (script_tokens ns) + length (script_tokens ns)) < fuel
    → parse_statements fuel (script_tokens ns) ≡ ok ns
unfolding parse_statements script_tokens tokens_of
parse_statements-script zero ns h enough = absurd (omega arith)
parse_statements-script (suc fuel) no_nodes h enough = refl
parse_statements-script (suc fuel) (add_node n ns) (h, hs) enough =
    let rest = script_tokens ns in
    rw (
      parse_statements,
      more_tokens n rest h,
      parse_statement-tokens fuel n rest h (script-Stops ns hs) (omega arith),
      parse_statements-script fuel ns hs (omega (arith, length-statement_tokens n rest h)),
    )

-- The tokens of any script, that is of declarations and of commands with arguments and with blocks of
-- commands in blocks of commands, are parsed into that script.
pub parse-script_tokens :
    (ns : Nodes) → AllStatements ns → parse (script_tokens ns) ≡ ok (node root_node [] [] ns 0)
unfolding parse
parse-script_tokens ns h =
    let n = length (script_tokens ns) in
    rw (parse_statements-script (suc (suc (n + n))) ns h (omega arith))
