-- ===== src/Tests/Runner.antt =====
-- cmd/gvtest/handlers.go and pkg/vtc at concrete lines and tests.
use gtest.Common.{
  ℕ, ◌<◌, All, ◌≡◌, ◌↔◌, refl, true, false, List, [], ◌∷◌, ◌++◌, none, some, Bytes, bytes_eq, codes,
  ok, arith, pos, ℤ,
}
use gtest.Http2.Conn.{new_conn}
use gtest.Http2.Handler.Scripts.{Durations}
use gtest.Http2.Handler.Tasks.{Handler, new_handler, start_stream, finished, process_command}
use gtest.Common.Numerals.{atoi, parse_uint, parse_int, parse_digits, scan}
use gtest.Macro.{expand, expand_loop, expand_round, new_store}
use gtest.Common.Strings.{index, has_prefix}
use gtest.Vtc.{Nodes, node, no_nodes, add_node, vtest_node, command_node}
use gtest.Http2.Handler.{char_kind, tokenize_command}
use gtest.Http2.Handler.FrameActions.{join}
use gtest.Http2.Handler.Tokens.{IsPlain}
use gtest.Runner.Specs.{simple_line, node_to_spec}
use gtest.Runner.Quoting.{IsArg, IsArgByte, tokenize_command-simple_line}
use gtest.Runner.Blocks.{pieces_of}
use gtest.Runner.Streams.{IsPart, one_command, started_stream, process_command-started_stream}
use gtest.Runner.Executor.{ExecContext, CommandRegistry, execute, exit_code, skip, new_exec_context}
use gtest.Runner.Exits.{Passes, exit_zero_iff}
use gtest.Runner.Builtins.{no_file_write, filewrite_args}
use gtest.Runner.Checks.{Shell, cmd_shell}
use gtest.Runner.Outcomes.{filewrite_args-content, cmd_shell_exit}

abbrev name : Bytes
name = codes "txreq"

abbrev args : List Bytes
args = codes "-b" ∷ codes "a b" ∷ []

plain_name : All IsPlain name
unfolding char_kind
plain_name = (refl, (refl, (refl, (refl, (refl, tt)))))

argument : (c : ℕ) → c < 92 → 34 < c → IsArgByte c
argument c h k = ((λ e. omega arith), (λ e. omega arith), (λ e. omega arith))

blank_argument : IsArgByte b' '
blank_argument = ((λ e. omega arith), (λ e. omega arith), (λ e. omega arith))

high_argument : (c : ℕ) → 92 < c → IsArgByte c
high_argument c h = ((λ e. omega arith), (λ e. omega arith), (λ e. omega arith))

IsArg-words : All IsArg args
IsArg-words = (
  (λ e. cc, (argument b'-' (omega arith) (omega arith), (high_argument b'b' (omega arith), tt))),
  (
    (
      λ e. cc,
      (high_argument b'a' (omega arith), (blank_argument, (high_argument b'b' (omega arith), tt))),
    ),
    tt,
  ),
)

tokenize_command-simple_line_example : tokenize_command (simple_line name args) ≡ name ∷ args
tokenize_command-simple_line_example =
    tokenize_command-simple_line name args (λ e. cc) plain_name IsArg-words

name_word : IsArg name
name_word = (
  λ e. cc,
  (
    high_argument b't' (omega arith),
    (
      high_argument b'x' (omega arith),
      (
        high_argument b'r' (omega arith),
        (high_argument b'e' (omega arith), (high_argument b'q' (omega arith), tt)),
      ),
    ),
  ),
)

-- The command on stream 1, which answers nothing by itself.
abbrev durations : Durations
durations = record { is_duration = λ s. true; is_float = λ s. false }

abbrev handler : Handler
handler = new_handler (new_conn false) []

stream_one : parse_uint 32 (codes "1") ≡ some 1
unfolding parse_uint parse_digits scan
stream_one = refl

no_dash : has_prefix (codes "1") (codes "-") ≡ false
unfolding has_prefix
no_dash = refl

IsPart-words : All IsPart (name ∷ args)
unfolding bytes_eq
IsPart-words = (
  record {
    not_run = refl;
    not_start = refl;
    not_wait = refl;
    no_bars = (
      (λ e. omega arith),
      ((λ e. omega arith), ((λ e. omega arith), ((λ e. omega arith), ((λ e. omega arith), tt)))),
    );
  },
  (
    record {
      not_run = refl;
      not_start = refl;
      not_wait = refl;
      no_bars = ((λ e. omega arith), ((λ e. omega arith), tt));
    },
    (
      record {
        not_run = refl;
        not_start = refl;
        not_wait = refl;
        no_bars = ((λ e. omega arith), ((λ e. omega arith), ((λ e. omega arith), tt)));
      },
      tt,
    ),
  ),
)

process_command-started_stream_example :
    (process_command durations handler
        (node_to_spec (started_stream (codes "1") (one_command name args)))
      ≡ (start_stream handler 1 (join (codes " ") (name ∷ args)), finished))
    × (tokenize_command (join (codes " ") (name ∷ args)) ≡ pieces_of (name ∷ args))
process_command-started_stream_example =
    process_command-started_stream durations handler 1 (codes "1") name args stream_one no_dash
      (λ e. cc, (argument b'1' (omega arith) (omega arith), tt)) plain_name (name_word, IsArg-words)
      IsPart-words

-- A test whose one command skips it.
abbrev registry : CommandRegistry ℕ ℕ
registry =
    (
      codes "feature",
      record { name = codes "feature"; func = λ args ctx. (skip ctx [], none); flags = 0 },
    )
    ∷ []

abbrev context : ExecContext ℕ
context = new_exec_context new_store [] 0

abbrev test : Nodes
test =
    add_node (node vtest_node (codes "t") [] no_nodes 1)
      (add_node (node command_node (codes "feature") [] no_nodes 2) no_nodes)

exit_zero_iff_example :
    (exit_code (execute registry context test) ≡ 0) ↔ Passes registry context test
exit_zero_iff_example = exit_zero_iff registry context test

filewrite_args-content_example :
    let w = filewrite_args no_file_write (codes "f" ∷ (codes "a" ∷ []) ++ (codes "b" ∷ [])) in
    (w.filename ≡ codes "f") × (w.content ≡ codes "b")
filewrite_args-content_example =
    filewrite_args-content (codes "f") (codes "a" ∷ []) (codes "b") (λ e. cc) (λ e. cc) (λ e. cc)

abbrev system : Shell
system = record { run = λ line. some (pos 1, []); match_string = λ p s. some true }

false_text : expand new_store (codes "false") ≡ ok (codes "false")
unfolding expand expand_loop expand_round index has_prefix
false_text = refl

zero_read : atoi (codes "0") ≡ some (pos 0)
unfolding atoi parse_int parse_digits scan
zero_read = refl

cmd_shell_exit_example :
    (cmd_shell system new_store (codes "false" ∷ []) ≡ ok tt)
    × ((cmd_shell system new_store (codes "-exit" ∷ codes "0" ∷ codes "false" ∷ []) ≡ ok tt)
        ↔ (◌≡◌ {A = ℤ} (pos 1) (pos 0)))
cmd_shell_exit_example =
    cmd_shell_exit system new_store (codes "false") (codes "false") (codes "0") [] (pos 1) (pos 0)
      (λ e. cc) (unfold bytes_eq in refl) false_text refl zero_read
