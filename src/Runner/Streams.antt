-- ===== src/Runner/Streams.antt =====
-- A command in the block of a `stream` command: the line that cmd/gvtest/handlers.go writes of it, and
-- what `handleStream` of pkg/http2/handler.go starts from that line.
use gtest.Common.{
  ℕ, ◌≡◌, ◌≢◌, refl, ◌∙◌, ap, true, false, List, [], ◌∷◌, ◌++◌, append-nil, append_assoc, some,
  Bytes, codes, bytes_eq, All, arith,
}
use gtest.Common.Numerals.{parse_uint}
use gtest.Common.Strings.{has_prefix, contains}
use gtest.Vtc.{Nodes, node, no_nodes, add_node, command_node}
use gtest.Http2.Handler.{char_kind, command_tokens, tokenize_command}
use gtest.Http2.Handler.FrameActions.{join}
use gtest.Http2.Handler.Scripts.{Durations, replace_from}
use gtest.Http2.Handler.Tasks.{
  Handler, finished, RunMode, unset, start, stream_args, run_in_mode, stream_by, start_stream,
  handle_stream, process_command, conn_tokens,
}
use gtest.Http2.Handler.Tokens.{IsPlain, command_tokens-plain, command_tokens-blank, flush_lem}
use gtest.Runner.Specs.{
  needs_quoting, quoted, quoted_all, join_args, simple_line, split_flags, block_line, node_to_spec,
  node_to_spec_with_delim, spec_lines, node_line,
}
use gtest.Runner.Quoting.{IsArg, quoted_tokens}
use gtest.Runner.Blocks.{pieces_of, pieces_of-join}

-- Arguments and what stands behind them.
tokens-join_then :
    (a : Bytes) (args : List Bytes) (s : Bytes)
    → IsArg a
    → All IsArg args
    → command_tokens false false [] (join (codes " ") (quoted_all (a ∷ args)) ++ (b' ' ∷ s))
      ≡ (a ∷ args) ++ command_tokens false false [] s
unfolding join
tokens-join_then a [] s (ne, h) k =
    quoted_tokens a (b' ' ∷ s) h
    ∙ command_tokens-blank a s
    ∙ flush_lem a (command_tokens false false [] s) ne
tokens-join_then a (b ∷ args) s (ne, h) (p, k) =
    let rest = join (codes " ") (quoted_all (b ∷ args)) in
    ap (command_tokens false false []) (append_assoc (quoted a) (b' ' ∷ rest) (b' ' ∷ s))
    ∙ quoted_tokens a (b' ' ∷ (rest ++ (b' ' ∷ s))) h
    ∙ command_tokens-blank a (rest ++ (b' ' ∷ s))
    ∙ flush_lem a (command_tokens false false [] (rest ++ (b' ' ∷ s))) ne
    ∙ ap (◌∷◌ a) (tokens-join_then b args s p k)

plain_then :
    (name s : Bytes)
    → name ≢ []
    → All IsPlain name
    → command_tokens false false [] (name ++ (b' ' ∷ s)) ≡ name ∷ command_tokens false false [] s
plain_then name s ne h =
    command_tokens-plain name [] (b' ' ∷ s) h
    ∙ command_tokens-blank name s
    ∙ flush_lem name (command_tokens false false [] s) ne

simple_line_then :
    (name : Bytes) (args : List Bytes) (s : Bytes)
    → name ≢ []
    → All IsPlain name
    → All IsArg args
    → command_tokens false false [] (simple_line name args ++ (b' ' ∷ s))
      ≡ (name ∷ args) ++ command_tokens false false [] s
unfolding simple_line join_args
simple_line_then name [] s ne h k = plain_then name s ne h
simple_line_then name (a ∷ args) s ne h (p, k) =
    let rest = join (codes " ") (quoted_all (a ∷ args)) in
    ap (command_tokens false false []) (append_assoc name (b' ' ∷ rest) (b' ' ∷ s))
    ∙ plain_then name (rest ++ (b' ' ∷ s)) ne h
    ∙ ap (◌∷◌ name) (tokens-join_then a args s p k)

-- The line of `stream NUM { … } -start` with one line in its block.
abbrev pub started_line : Bytes → Bytes → Bytes
started_line num spec = block_line (codes "stream") (num ∷ codes "-start" ∷ []) spec

flag_start : has_prefix (codes "-start") (codes "-") ≡ true
unfolding has_prefix
flag_start = refl

quoted_start : quoted (codes "-start") ≡ codes "-start"
unfolding needs_quoting contains has_prefix
quoted_start = refl

started_line_lem :
    (num spec : Bytes)
    → has_prefix num (codes "-") ≡ false
    → started_line num spec
      ≡ codes "stream" ++ (b' ' ∷ (quoted num ++ (b' ' ∷ (spec ++ codes " -start"))))
unfolding block_line split_flags join_args join
started_line_lem num spec h = rw (h, flag_start, quoted_start)

start_tokens : command_tokens false false [] (codes "-start") ≡ codes "-start" ∷ []
unfolding command_tokens char_kind
start_tokens = refl

stream_tokens :
    (s : Bytes)
    → command_tokens false false [] (codes "stream" ++ (b' ' ∷ s))
      ≡ codes "stream" ∷ command_tokens false false [] s
unfolding command_tokens char_kind
stream_tokens s = refl

tokenize_command-started_line :
    (num name : Bytes) (args : List Bytes)
    → has_prefix num (codes "-") ≡ false
    → IsArg num
    → name ≢ []
    → All IsPlain name
    → All IsArg args
    → tokenize_command (started_line num (simple_line name args))
      ≡ codes "stream" ∷ num ∷ ((name ∷ args) ++ (codes "-start" ∷ []))
unfolding tokenize_command
tokenize_command-started_line num name args h (some_num, n) ne plain k =
    let spec = simple_line name args ++ codes " -start" in
    ap (command_tokens false false []) (started_line_lem num (simple_line name args) h)
    ∙ stream_tokens (quoted num ++ (b' ' ∷ spec))
    ∙ ap (◌∷◌ (codes "stream")) (
        quoted_tokens num (b' ' ∷ spec) n
        ∙ command_tokens-blank num spec
        ∙ flush_lem num (command_tokens false false [] spec) some_num
        ∙ ap (◌∷◌ num) (
            simple_line_then name args (codes "-start") ne plain k
            ∙ ap (λ ws. (name ∷ args) ++ ws) start_tokens))

-- An argument that is none of the modes of `stream`, and without the bars that join lines.
pub record IsPart (a : Bytes) : Type 0 where
  pub not_run : bytes_eq a (codes "-run") ≡ false
  pub not_start : bytes_eq a (codes "-start") ≡ false
  pub not_wait : bytes_eq a (codes "-wait") ≡ false
  pub no_bars : All (λ c. c ≢ b'|') a

stream_args-parts :
    (mode : RunMode) (parts ps : List Bytes)
    → All IsPart ps
    → stream_args mode parts (ps ++ (codes "-start" ∷ [])) ≡ (start, parts ++ ps)
unfolding stream_args bytes_eq
stream_args-parts mode parts [] h = rw (append-nil parts)
stream_args-parts mode parts (a ∷ ps) (p, h) =
    rw (stream_args, p.not_run, p.not_start, p.not_wait)
      (stream_args-parts mode (parts ++ (a ∷ [])) ps h
        ∙ ap (λ x. (start, x)) (append_assoc parts (a ∷ []) ps))

replace_none : (s : Bytes) → All (λ c. c ≢ b'|') s → replace_from 0 (codes "|||") (codes "\n") s ≡ s
unfolding replace_from
replace_none [] h = refl
replace_none (c ∷ s) (p, h) =
    let other : has_prefix (c ∷ s) (codes "|||") ≡ false = unfold has_prefix in ground arith in
    rw (replace_from, other) (ap (◌∷◌ c) (replace_none s h))

append_all :
    (a b : Bytes) → All (λ c. c ≢ b'|') a → All (λ c. c ≢ b'|') b → All (λ c. c ≢ b'|') (a ++ b)
append_all [] b h k = k
append_all (c ∷ a) b (p, h) k = (p, append_all a b h k)

join_no_bars : (args : List Bytes) → All IsPart args → All (λ c. c ≢ b'|') (join (codes " ") args)
unfolding join
join_no_bars [] h = tt
join_no_bars (a ∷ []) (p, h) = p.no_bars
join_no_bars (a ∷ b ∷ args) (p, h) =
    append_all a (b' ' ∷ join (codes " ") (b ∷ args)) p.no_bars
      ((λ e. omega (arith, e)), join_no_bars (b ∷ args) h)

join-ne : (a : Bytes) (args : List Bytes) → a ≢ [] → join (codes " ") (a ∷ args) ≢ []
unfolding join
join-ne [] args ne e = absurd (ne refl)
join-ne (c ∷ a) [] ne e = ne e
join-ne (c ∷ a) (b ∷ args) ne e = absurd cc

module _ (lib : Durations) (h : Handler) (i : ℕ) where
  run_in_mode-start :
      (spec : Bytes)
      → spec ≢ []
      → run_in_mode lib h i start spec ≡ (start_stream h i spec, finished)
  run_in_mode-start [] ne = absurd (ne refl)
  run_in_mode-start (c ∷ spec) ne = refl

  handle_stream-start :
      (num name : Bytes) (args : List Bytes)
      → parse_uint 32 num ≡ some i
      → name ≢ []
      → All IsPart (name ∷ args)
      → handle_stream lib h (num ∷ ((name ∷ args) ++ (codes "-start" ∷ [])))
        ≡ (start_stream h i (join (codes " ") (name ∷ args)), finished)
  unfolding handle_stream
  handle_stream-start num name args e ne parts =
      let text = join (codes " ") (name ∷ args) in
      ap (λ o. stream_by lib h o (stream_args unset [] ((name ∷ args) ++ (codes "-start" ∷ [])))) e
      ∙ ap (stream_by lib h (some i)) (stream_args-parts unset [] (name ∷ args) parts)
      ∙ ap (run_in_mode lib h i start) (replace_none text (join_no_bars (name ∷ args) parts))
      ∙ run_in_mode-start text (join-ne name args ne)

-- The block of one command with no block of its own, and `stream NUM { … } -start` around it.
abbrev pub one_command : Bytes → List Bytes → Nodes
one_command name args = add_node (node command_node name args no_nodes 2) no_nodes

abbrev pub started_stream : Bytes → Nodes → Nodes
started_stream num block =
    add_node (node command_node (codes "stream") (num ∷ codes "-start" ∷ []) block 1) no_nodes

node_to_spec-started_stream :
    (num name : Bytes) (args : List Bytes)
    → node_to_spec (started_stream num (one_command name args))
      ≡ started_line num (simple_line name args)
unfolding node_to_spec node_to_spec_with_delim spec_lines node_line join
node_to_spec-started_stream num name args = refl

-- The specification that is written for `stream NUM { COMMAND ARGS } -start`, where NUM is read as a
-- uint32 and does not begin with a dash, the command is plain bytes, none of its words is empty or has a
-- quote, a backslash, a tab or a bar, and none is `-run`, `-start` or `-wait`: `ProcessCommand` starts
-- that stream with the command and its arguments joined by blanks, without the quotes that the line had,
-- and the tokens of that text are the pieces between blanks of the command and of each argument.
pub process_command-started_stream :
    (lib : Durations) (h : Handler) (i : ℕ) (num name : Bytes) (args : List Bytes)
    → parse_uint 32 num ≡ some i
    → has_prefix num (codes "-") ≡ false
    → IsArg num
    → All IsPlain name
    → All IsArg (name ∷ args)
    → All IsPart (name ∷ args)
    → (process_command lib h (node_to_spec (started_stream num (one_command name args)))
        ≡ (start_stream h i (join (codes " ") (name ∷ args)), finished))
      × (tokenize_command (join (codes " ") (name ∷ args)) ≡ pieces_of (name ∷ args))
unfolding process_command bytes_eq
process_command-started_stream lib h i num name args e dash n plain (p, k) parts = (
  ap (process_command lib h) (node_to_spec-started_stream num name args)
      ∙ ap (conn_tokens lib h) (tokenize_command-started_line num name args dash n p.0 plain k)
      ∙ handle_stream-start lib h i num name args e p.0 parts,
  pieces_of-join (name ∷ args) (p, k),
)
