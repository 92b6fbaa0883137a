-- ===== src/Runner/Exits.antt =====
-- What the exit code of a test says (pkg/vtc/executor.go).
use gtest.Common.{
  ℕ, ◌≡◌, ◌↔◌, refl, sym, ◌∙◌, ap, Bool, true, false, none, some, if◌then◌else◌, arith,
}
use gtest.Vtc.{Node, Nodes, no_nodes, add_node}
use gtest.Runner.Executor.{
  ExecContext, ExecError, test_failed, CommandRegistry, Executed, execute_node, execute, exit_code,
  fail, guarded, after_node,
}

true_ne : (true ≡ false) → ⊥
true_ne e = cc

module _ {Rest E : Type 0} (r : CommandRegistry Rest E) where
  -- No mark is set.
  abbrev IsClean : ExecContext Rest → Type 0
  IsClean ctx = (ctx.failed ≡ false) × (ctx.skipped ≡ false)

  -- Every node is executed in order, without an error, from contexts that no mark is set in.
  pub data Runs : ExecContext Rest → Nodes → ExecContext Rest → Type 0 where
    stop : {ctx : ExecContext Rest} → Runs ctx no_nodes ctx
    step :
        {ctx ctx' ctx'' : ExecContext Rest} {n : Node} {ns : Nodes}
        → ctx.failed ≡ false
        → ctx.skipped ≡ false
        → execute_node r ctx n ≡ (ctx', none)
        → Runs ctx' ns ctx''
        → Runs ctx (add_node n ns) ctx''

  execute-clean :
      (ctx : ExecContext Rest) (n : Node) (ns : Nodes) (answer : Executed Rest E)
      → ctx.failed ≡ false
      → ctx.skipped ≡ false
      → execute_node r ctx n ≡ answer
      → execute r ctx (add_node n ns) ≡ after_node answer (execute r answer.0 ns)
  unfolding execute
  execute-clean ctx n ns answer f s e =
      guarded_clean ctx.failed ctx.skipped f s
      ∙ ap (λ (a : Executed Rest E). after_node a (execute r a.0 ns)) e
    where
      guarded_clean :
          (failed skipped : Bool)
          → failed ≡ false
          → skipped ≡ false
          → guarded failed skipped ctx
              (after_node (execute_node r ctx n) (execute r (execute_node r ctx n).0 ns))
            ≡ after_node (execute_node r ctx n) (execute r (execute_node r ctx n).0 ns)
      guarded_clean failed skipped p q = rw (p, q) refl

  Runs-execute :
      (ctx : ExecContext Rest) (ns : Nodes) (ctx' : ExecContext Rest)
      → Runs ctx ns ctx'
      → execute r ctx ns ≡ (ctx', none)
  unfolding execute
  Runs-execute ctx no_nodes ctx' stop = refl
  Runs-execute ctx (add_node n ns) ctx'' (step {ctx' = ctx'} f s e h) =
      execute-clean ctx n ns (ctx', none) f s e ∙ Runs-execute ctx' ns ctx'' h

  -- A run to the end that leaves no mark.
  abbrev pub Passes : ExecContext Rest → Nodes → Type 0
  Passes ctx ns = (ctx' : ExecContext Rest) × Runs ctx ns ctx' × IsClean ctx'

  error_exit : (ctx : ExecContext Rest) (e : ExecError E) → (exit_code (ctx, some e) ≡ 0) → ⊥
  unfolding exit_code
  error_exit ctx e h = go ctx.skipped h
    where
      go : (b : Bool) → ◌≡◌ {A = ℕ} (if b then 77 else 1) 0 → ⊥
      go true k = omega arith
      go false k = omega arith

  IsClean-exit : (ctx : ExecContext Rest) → exit_code {E = E} (ctx, none) ≡ 0 → IsClean ctx
  unfolding exit_code
  IsClean-exit ctx h = go ctx.failed ctx.skipped h
    where
      go :
          (f s : Bool)
          → ◌≡◌ {A = ℕ} (if f then 1 else if s then 77 else 0) 0
          → (f ≡ false) × (s ≡ false)
      go true s k = absurd (omega arith)
      go false true k = absurd (omega arith)
      go false false k = (refl, refl)

  exit_clean : (ctx : ExecContext Rest) → IsClean ctx → exit_code {E = E} (ctx, none) ≡ 0
  unfolding exit_code
  exit_clean ctx (f, s) = rw (f, s) refl

  zero-Passes :
      (ctx : ExecContext Rest) (ns : Nodes) → exit_code (execute r ctx ns) ≡ 0 → Passes ctx ns
  unfolding execute
  zero-Passes ctx no_nodes h = (ctx, stop, IsClean-exit ctx h)
  zero-Passes ctx (add_node n ns) h =
      go ctx.failed ctx.skipped (execute_node r ctx n) refl refl refl h
        (λ ctx' k. zero-Passes ctx' ns k)
    where
      go :
          (f s : Bool) (answer : Executed Rest E)
          → ctx.failed ≡ f
          → ctx.skipped ≡ s
          → execute_node r ctx n ≡ answer
          → exit_code (guarded f s ctx (after_node answer (execute r answer.0 ns))) ≡ 0
          → ((ctx' : ExecContext Rest) → exit_code (execute r ctx' ns) ≡ 0 → Passes ctx' ns)
          → Passes ctx (add_node n ns)
      go true s answer p q e k ih = absurd (error_exit ctx test_failed k)
      go false true answer p q e k ih = absurd (true_ne (sym q ∙ (IsClean-exit ctx k).1))
      go false false (ctx', some x) p q e k ih = absurd (error_exit (fail ctx') (x) k)
      go false false (ctx', none) p q e k ih =
          let (ctx'', runs, clean) = ih ctx' k in (ctx'', step p q e runs, clean)

-- The exit code is 0 exactly when every node of the test is executed, in order and without an error,
-- from a context in which no command has marked the test failed or skipped, and no mark is left at the
-- end.
pub exit_zero_iff :
    {Rest E : Type 0} (r : CommandRegistry Rest E) (ctx : ExecContext Rest) (ns : Nodes)
    → (exit_code (execute r ctx ns) ≡ 0) ↔ Passes r ctx ns
exit_zero_iff r ctx ns = (
  zero-Passes r ctx ns,
  λ (ctx', runs, clean). ap exit_code (Runs-execute r ctx ns ctx' runs) ∙ exit_clean r ctx' clean,
)
