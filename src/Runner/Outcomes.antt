-- ===== src/Runner/Outcomes.antt =====
-- What `shell` and `filewrite` of pkg/vtc/builtin_commands.go come to.
use gtest.Common.{
  ◌≡◌, ◌≢◌, ◌↔◌, refl, ◌∙◌, ap, Bool, true, false, not, List, [], ◌∷◌, ◌++◌, Option, none, some,
  ==_iff, if◌then◌else◌, Bytes, codes, bytes_eq, bytes_eq-false, chain, Bool-cases, inl, inr,
  Result, ok, err, ℤ, pos, negsuc, arith,
}
use gtest.Common.Numerals.{atoi}
use gtest.Macro.{Store, expand}
use gtest.Http1.Expect.{int_equal}
use gtest.Http2.Handler.FrameActions.{join}
use gtest.Runner.Builtins.{BuiltinError, FileWrite, filewrite_args, no_file_write, wrong_exit}
use gtest.Runner.Checks.{
  Shell, cmd_shell, shell_options, is_shell_option, ShellOptions, new_shell_options, run_shell,
  exit_differs, expanded_shell,
}

-- Once the name is there, the last argument is the content.
filewrite_args_last :
    (w : FileWrite) (args : List Bytes) (last : Bytes)
    → bytes_eq w.filename [] ≡ false
    → bytes_eq last (codes "-append") ≡ false
    → ((filewrite_args w (args ++ (last ∷ []))).content ≡ last)
      × ((filewrite_args w (args ++ (last ∷ []))).filename ≡ w.filename)
unfolding filewrite_args join
filewrite_args_last w [] last named h = rw (filewrite_args, h, named) (refl, refl)
filewrite_args_last w (a ∷ args) last named h = elim (Bool-cases (bytes_eq a (codes "-append"))) [
  | inl e ↦
      rw (filewrite_args, e)
        (filewrite_args_last (record w { append_mode = true }) args last named h)
  | inr e ↦
      rw (filewrite_args, e, named)
        (filewrite_args_last (record w { content = join (codes " ") (a ∷ (args ++ (last ∷ []))) })
          args last named h)
]

-- `filewrite` with a name and more arguments, the name and the last one not `-append`: the name is the
-- first argument, and the content is the last one alone, whatever stands between.
pub filewrite_args-content :
    (name : Bytes) (args : List Bytes) (last : Bytes)
    → name ≢ []
    → name ≢ codes "-append"
    → last ≢ codes "-append"
    → let w = filewrite_args no_file_write (name ∷ (args ++ (last ∷ []))) in
      (w.filename ≡ name) × (w.content ≡ last)
unfolding filewrite_args bytes_eq
filewrite_args-content name args last ne p q =
    let w : FileWrite = record { filename = name; content = []; append_mode = false } in
    let (content, kept) =
      filewrite_args_last w args last (bytes_eq-false name [] ne)
        (bytes_eq-false last (codes "-append") q) in
    let first : filewrite_args no_file_write (name ∷ (args ++ (last ∷ [])))
        ≡ filewrite_args w (args ++ (last ∷ [])) =
      rw (filewrite_args, bytes_eq-false name (codes "-append") p) refl in
    (
      ap (λ (x : FileWrite). x.filename) first ∙ kept,
      ap (λ (x : FileWrite). x.content) first ∙ content,
    )

int_equal_iff : (a b : ℤ) → (int_equal a b ≡ true) ↔ (a ≡ b)
int_equal_iff (pos m) (pos n) = ground (arith, ==_iff m n)
int_equal_iff (negsuc m) (negsuc n) = ground (arith, ==_iff m n)
int_equal_iff (pos m) (negsuc n) = ((λ e. absurd cc), (λ e. absurd cc))
int_equal_iff (negsuc m) (pos n) = ((λ e. absurd cc), (λ e. absurd cc))

checked_iff :
    (b : Bool)
    → (◌≡◌ {A = Result BuiltinError (Unit {0})} (if not b then err wrong_exit else ok tt) (ok tt))
      ↔ (b ≡ true)
checked_iff true = ((λ e. refl), (λ e. refl))
checked_iff false = ((λ e. absurd cc), (λ e. absurd cc))

-- The options after a command line, with an exit code or without.
abbrev command_of : Bytes → Option ℤ → ShellOptions
command_of line exit = record {
  shell_cmd = line;
  expect_exit = exit;
  match_pattern = [];
  expect_output = [];
}

run_shell-command_of :
    (sys : Shell) (ms : Store) (line text output : Bytes) (code : ℤ) (exit : Option ℤ)
    → line ≢ []
    → expand ms line ≡ ok text
    → sys.run text ≡ some (code, output)
    → run_shell sys ms (command_of line exit)
      ≡ (if exit_differs sys exit code then err wrong_exit else ok tt)
unfolding bytes_eq
run_shell-command_of sys ms line text output code exit ne expands runs =
    rw (bytes_eq-false line [] ne, expanded_shell, expands, runs) refl

options_alone :
    (line : Bytes)
    → is_shell_option line ≡ false
    → shell_options new_shell_options (line ∷ []) ≡ ok (command_of line none)
unfolding shell_options
options_alone line plain = rw (shell_options, plain) refl

options_exit :
    (line number : Bytes) (n : ℤ)
    → is_shell_option line ≡ false
    → atoi number ≡ some n
    → shell_options new_shell_options (codes "-exit" ∷ number ∷ line ∷ [])
      ≡ ok (command_of line (some n))
unfolding shell_options bytes_eq
options_exit line number n plain reads = rw (shell_options, reads, plain) refl

-- A command line that is not empty and no option of `shell`, in which every macro has a value, and which
-- the system can run: with no option, `shell` passes whatever the exit code and the output; with
-- `-exit` and a number it passes exactly if that is the exit code.
pub cmd_shell_exit :
    (sys : Shell) (ms : Store) (line text number output : Bytes) (code n : ℤ)
    → line ≢ []
    → is_shell_option line ≡ false
    → expand ms line ≡ ok text
    → sys.run text ≡ some (code, output)
    → atoi number ≡ some n
    → (cmd_shell sys ms (line ∷ []) ≡ ok tt)
      × ((cmd_shell sys ms (codes "-exit" ∷ number ∷ line ∷ []) ≡ ok tt) ↔ (code ≡ n))
unfolding cmd_shell
cmd_shell_exit sys ms line text number output code n ne plain expands runs reads =
    let ran =
      λ (exit : Option ℤ). run_shell-command_of sys ms line text output code exit ne expands runs in
    (
      rw (options_alone line plain) (ran none),
      rw (options_exit line number n plain reads, ran (some n))
          (chain (checked_iff (int_equal code n)) (int_equal_iff code n)),
    )
