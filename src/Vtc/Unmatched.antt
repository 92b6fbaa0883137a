-- ===== src/Vtc/Unmatched.antt =====
-- Tokens that no statement begins with: `Parse` of pkg/vtc/parser.go does not get past them.
use gtest.Common.{ℕ, zero, suc, ◌+◌, ◌<◌, ◌≡◌, refl, List, [], ◌∷◌, length, err, arith}
use gtest.Vtc.{
  Token, token_rbrace, node, root_node, vtest_node, command_node, Nodes, no_nodes, add_node, stuck,
}
use gtest.Vtc.Parser.{parse_command, parse_statement, parse_statements}
use gtest.Vtc.RoundTrip.{tokens_of, Stops}
use gtest.Vtc.Scripts.{
  AllStatements, statement_tokens, more_tokens, parse_statement-tokens, length-statement_tokens,
}

-- The tokens of statements before those of `rest`.
unfoldable pub statements_before : Nodes → List Token → List Token
statements_before no_nodes rest = rest
statements_before (add_node n ns) rest = statement_tokens n (statements_before ns rest)

before-Stops :
    (ns : Nodes) (rest : List Token)
    → AllStatements ns
    → Stops rest
    → Stops (statements_before ns rest)
unfolding statements_before tokens_of
before-Stops no_nodes rest h s = s
before-Stops (add_node (node vtest_node name args children line) ns) rest h s = refl
before-Stops (add_node (node command_node name args children line) ns) rest h s = refl
before-Stops (add_node (node root_node name args children line) ns) rest (h, hs) s = absurd h

abbrev pub closing_brace : ℕ → Token
closing_brace line = record { kind = token_rbrace; value = b'}' ∷ []; line = line; col = 0 }

stays :
    (fuel line : ℕ) (ts : List Token) → parse_statements fuel (closing_brace line ∷ ts) ≡ err stuck
unfolding parse_statements parse_statement parse_command
stays zero line ts = refl
stays (suc zero) line ts = refl
stays (suc (suc fuel)) line ts = rw (stays (suc fuel) line ts)

-- A closing brace behind any statements, with nothing open, is never taken, and Parse goes round on it
-- for ever: no number of rounds, above those for the statements before it, is enough.
pub parse_statements_unmatched :
    (fuel line : ℕ) (ns : Nodes) (ts : List Token)
    → AllStatements ns
    → (let all = statements_before ns (closing_brace line ∷ ts) in
        suc (length all + length all) < fuel)
    → parse_statements fuel (statements_before ns (closing_brace line ∷ ts)) ≡ err stuck
unfolding parse_statements statements_before
parse_statements_unmatched zero line ns ts h enough = absurd (omega arith)
parse_statements_unmatched (suc fuel) line no_nodes ts h enough = stays (suc fuel) line ts
parse_statements_unmatched (suc fuel) line (add_node n ns) ts (h, hs) enough =
    let rest = statements_before ns (closing_brace line ∷ ts) in
    rw (
      parse_statements,
      more_tokens n rest h,
      parse_statement-tokens fuel n rest h (before-Stops ns (closing_brace line ∷ ts) hs refl)
          (omega arith),
      parse_statements_unmatched fuel line ns ts hs
          (omega (arith, length-statement_tokens n rest h)),
    )
