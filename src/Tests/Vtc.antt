-- ===== src/Tests/Vtc.antt =====
-- pkg/vtc/parser.go at a short script.
use gtest.Common.{ℕ, ◌≡◌, refl, true, [], ◌∷◌, Bytes, codes, List, All, ok, err, arith}
use gtest.Common.Texts.{cut, cut-Lacks}
use gtest.Vtc.{Node, node, Nodes, no_nodes, add_node, root_node, vtest_node, command_node, stuck}
use gtest.Vtc.Lexer.{Lexeme, word, quoted, reference, opening, tokenize_line}
use gtest.Vtc.Lines.{IsLexeme, line_of_lexemes, line_tokens_of, tokenize_line-line_of_lexemes}
use gtest.Vtc.Parser.{parse, parse_statements, process_escape_sequences}
use gtest.Vtc.RoundTrip.{AllCommands}
use gtest.Vtc.Scripts.{AllStatements, script_tokens, parse-script_tokens}
use gtest.Vtc.Unmatched.{statements_before, closing_brace, parse_statements_unmatched}
use gtest.Vtc.Escapes.{
  plain, hex, newline, spell_all, spelled_all, process_escape_sequences-spell_all,
}

abbrev command : Bytes → List Bytes → Nodes → ℕ → Node
command name args children line = node command_node name args children line

-- vtest "t", and a server that answers one request
abbrev script : Nodes
script = add_node (node vtest_node (codes "t") [] no_nodes 1) (
    add_node
      (command (codes "server") (codes "s1" ∷ [])
        (add_node (command (codes "rxreq") [] no_nodes 3) (
          add_node (command (codes "txresp") (codes "-status" ∷ codes "404" ∷ []) no_nodes 4)
            no_nodes))
        2)
      no_nodes)

script-AllStatements : AllStatements script
unfolding AllCommands
script-AllStatements = ((refl, refl), (((λ e. cc), (tt, (tt, tt))), tt))

parse-script_tokens_example : parse (script_tokens script) ≡ ok (node root_node [] [] script 0)
parse-script_tokens_example = parse-script_tokens script script-AllStatements

-- One test declaration before a brace.
abbrev declared : Nodes
declared = add_node (node vtest_node (codes "t") [] no_nodes 1) no_nodes

parse_statements_unmatched_example :
    parse_statements 100 (statements_before declared (closing_brace 2 ∷ [])) ≡ err stuck
unfolding statements_before
parse_statements_unmatched_example =
    parse_statements_unmatched 100 2 declared [] ((refl, refl), tt) (omega arith)

abbrev lexemes : List Lexeme
lexemes =
    word (codes "txreq")
    ∷ word (codes "-url")
    ∷ quoted (codes "/a b")
    ∷ reference (codes "${x}")
    ∷ word (codes "-hdr")
    ∷ opening
    ∷ []

lexemes-IsLexeme : All IsLexeme lexemes
unfolding cut
lexemes-IsLexeme = (
  ((λ e. cc), (refl, (refl, (refl, (refl, (refl, tt)))))),
  (
    ((λ e. cc), (refl, (refl, (refl, (refl, tt))))),
    (
      (cut-Lacks b'"' (codes "/a b") refl, cut-Lacks b'\\' (codes "/a b") refl),
      (
        (codes "x", refl, cut-Lacks b'}' (codes "x") refl),
        (((λ e. cc), (refl, (refl, (refl, (refl, tt))))), (tt, tt)),
      ),
    ),
  ),
)

tokenize_line-line_of_lexemes_example :
    tokenize_line (line_of_lexemes lexemes) 7 ≡ ok (line_tokens_of 7 true 0 lexemes)
tokenize_line-line_of_lexemes_example = tokenize_line-line_of_lexemes 7 lexemes lexemes-IsLexeme

process_escape_sequences-spell_all_example :
    process_escape_sequences (spell_all (plain b'a' ∷ newline ∷ hex 255 ∷ []))
    ≡ spelled_all (plain b'a' ∷ newline ∷ hex 255 ∷ [])
process_escape_sequences-spell_all_example =
    process_escape_sequences-spell_all (plain b'a' ∷ newline ∷ hex 255 ∷ [])
      (omega arith, (tt, (omega arith, tt)))
