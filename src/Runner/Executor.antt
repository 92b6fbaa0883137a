-- ===== src/Runner/Executor.antt =====
-- pkg/vtc/commands.go and pkg/vtc/executor.go: the registry of commands, and the run of a parsed test.
-- What a command does is a function of the registry; `Rest` is what it keeps in the context besides
-- the fields here. Files are left out but for the text of the test.
use gtest.Common.{ℕ, Bool, true, false, List, [], Option, none, some, if◌then◌else◌, Bytes, codes}
use gtest.Common.Maps.{lookup, insert, bytes_key}
use gtest.Macro.{Store, define}
use gtest.Vtc.{Node, Nodes, node, no_nodes, add_node, vtest_node, command_node}

pub record ExecContext (Rest : Type 0) : Type 0 where
  pub macros : Store
  pub tmp_dir : Bytes
  pub failed : Bool
  pub skipped : Bool
  pub skip_reason : Bytes
  pub current_node : Option Node
  pub rest : Rest

pub data ExecError (E : Type 0) : Type 0 where
  unknown_command unknown_node test_failed : ExecError E
  command_error : E → ExecError E

-- A command's flags are a number.
pub record Command (Rest : Type 0) (E : Type 0) : Type 0 where
  pub name : Bytes
  pub func : List Bytes → ExecContext Rest → ExecContext Rest × Option E
  pub flags : ℕ

abbrev pub CommandRegistry : Type 0 → Type 0 → Type 0
CommandRegistry Rest E = List (Bytes × Command Rest E)

module _ {Rest : Type 0} where
  unfoldable pub new_exec_context : Store → Bytes → Rest → ExecContext Rest
  new_exec_context macros tmp_dir rest = record {
    macros = macros;
    tmp_dir = tmp_dir;
    failed = false;
    skipped = false;
    skip_reason = [];
    current_node = none;
    rest = rest;
  }

  unfoldable pub fail : ExecContext Rest → ExecContext Rest
  fail ctx = record ctx { failed = true }

  unfoldable pub skip : ExecContext Rest → Bytes → ExecContext Rest
  skip ctx reason = record ctx { skipped = true; skip_reason = reason }

-- The answer of an execution: the context, and `nil` or the error.
abbrev pub Executed : Type 0 → Type 0 → Type 0
Executed Rest E = ExecContext Rest × Option (ExecError E)

module _ {Rest E : Type 0} where
  unfoldable pub register :
      CommandRegistry Rest E
      → Bytes
      → (List Bytes → ExecContext Rest → ExecContext Rest × Option E)
      → ℕ
      → CommandRegistry Rest E
  register r name func flags = insert name (record { name = name; func = func; flags = flags }) r

  abbrev lifted : ExecContext Rest × Option E → Executed Rest E
  lifted (ctx, none) = (ctx, none)
  lifted (ctx, some e) = (ctx, some (command_error e))

  abbrev run_command : Option (Command Rest E) → List Bytes → ExecContext Rest → Executed Rest E
  run_command none args ctx = (ctx, some unknown_command)
  run_command (some c) args ctx = lifted (c.func args ctx)

  -- `Execute` of the registry.
  unfoldable pub execute_command :
      CommandRegistry Rest E → Bytes → List Bytes → ExecContext Rest → Executed Rest E
  execute_command r name args ctx = run_command (lookup name r) args ctx

  unfoldable pub execute_node : CommandRegistry Rest E → ExecContext Rest → Node → Executed Rest E
  unfolding execute_command
  execute_node r ctx (node vtest_node name args children line) = (ctx, none)
  execute_node r ctx (node command_node name args children line) =
      execute_command r name args
        (record ctx { current_node = some (node command_node name args children line) })
  execute_node r ctx (node _ name args children line) = (ctx, some unknown_node)

  -- The loop of `Execute`, which looks at the marks before each node, and marks the test failed at
  -- an error.
  abbrev pub guarded :
      (failed : Bool) → (skipped : Bool) → ExecContext Rest → Executed Rest E → Executed Rest E
  guarded true s ctx others = (ctx, some test_failed)
  guarded false true ctx others = (ctx, none)
  guarded false false ctx others = others

  abbrev pub after_node : Executed Rest E → Executed Rest E → Executed Rest E
  after_node (ctx, none) others = others
  after_node (ctx, some e) others = (fail ctx, some e)

  unfoldable pub execute : CommandRegistry Rest E → ExecContext Rest → Nodes → Executed Rest E
  execute r ctx no_nodes = (ctx, none)
  execute r ctx (add_node n ns) =
      let answer = execute_node r ctx n in
      let others = execute r answer.0 ns in
      guarded ctx.failed ctx.skipped ctx (after_node answer others)

  -- The exit code of `RunTest` behind the parser.
  unfoldable pub exit_code : Executed Rest E → ℕ
  exit_code (ctx, some e) = if ctx.skipped then 77 else 1
  exit_code (ctx, none) = if ctx.failed then 1 else if ctx.skipped then 77 else 0

  -- `RunTest` on a temporary directory and the text of the test, if there is one; `parse` is the
  -- parser.
  abbrev pub run_nodes : CommandRegistry Rest E → ExecContext Rest → Option Nodes → ℕ
  run_nodes r ctx none = 2
  run_nodes r ctx (some ns) = exit_code (execute r ctx ns)

  abbrev pub run_text :
      (Bytes → Option Nodes) → CommandRegistry Rest E → ExecContext Rest → Option Bytes → ℕ
  run_text parse r ctx none = 2
  run_text parse r ctx (some text) = run_nodes r ctx (parse text)

  unfoldable pub run_test :
      (Bytes → Option Nodes)
      → CommandRegistry Rest E
      → Store
      → Rest
      → (tmp_dir : Bytes) → (file : Option Bytes) → ℕ
  unfolding define
  run_test parse r macros rest tmp_dir file =
      run_text parse r (new_exec_context (define macros (codes "tmpdir") tmp_dir) tmp_dir rest) file
