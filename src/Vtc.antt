-- ===== src/Vtc.antt =====
-- pkg/vtc/parser.go: the tokens and the tree of a test script.
pub mod Lexer
pub mod Parser
pub mod RoundTrip
pub mod Scripts
pub mod Lines
pub mod Escapes
pub mod Unmatched
use gtest.Common.{ℕ, zero, suc, Bool, true, false, List, [], ◌∷◌, Bytes}

pub data TokenKind : Type 0 where
  token_eof token_command token_string token_lbrace token_rbrace : TokenKind
  token_comment token_newline token_identifier : TokenKind

pub record Token : Type 0 where
  pub kind : TokenKind
  pub value : Bytes
  pub line : ℕ
  pub col : ℕ

pub data NodeType : Type 0 where
  root_node vtest_node command_node : NodeType

-- `node` is a Node of a type, with its name, its arguments, its children and its line.
mutual
  pub data Node : Type 0 where
    node : NodeType → Bytes → List Bytes → Nodes → ℕ → Node

  pub data Nodes : Type 0 where
    no_nodes : Nodes
    add_node : Node → Nodes → Nodes

-- `scan_failed` is any error of the scanner, and `stuck` no Go value: a loop ran out of fuel.
pub data ParseError : Type 0 where
  unterminated_string unclosed_brace unclosed_block expected_name scan_failed stuck : ParseError
