-- ===== src/Runner/Checks.antt =====
-- The commands of pkg/vtc/builtin_commands.go that check the system: shell and feature. What it answers
-- is given.
use gtest.Runner.Builtins.{
  BuiltinError, missing_argument, bad_exit, bad_pattern, exec_failed, expansion_failed, wrong_exit,
  no_match, wrong_output, unknown_feature, or_bad,
}
use gtest.Common.{
  Bool, true, false, not, ◌&&◌, ◌||◌, List, [], ◌∷◌, Option, none, some, if◌then◌else◌, Bytes,
  codes, bytes_eq, Result, ok, err, ◌>>=◌, ℤ,
}
use gtest.Common.Maps.{bytes_key}
use gtest.Common.Numerals.{atoi}
use gtest.Common.Texts.{trim_space}
use gtest.Macro.{Store, expand}
use gtest.Http1.Expect.{int_equal}

-- The options of `shell`.
pub record ShellOptions : Type 0 where
  pub shell_cmd : Bytes
  pub expect_exit : Option ℤ
  pub match_pattern : Bytes
  pub expect_output : Bytes

abbrev pub new_shell_options : ShellOptions
new_shell_options = record {
  shell_cmd = [];
  expect_exit = none;
  match_pattern = [];
  expect_output = [];
}

abbrev pub is_shell_option : Bytes → Bool
is_shell_option a =
    bytes_eq a (codes "-exit") || bytes_eq a (codes "-match") || bytes_eq a (codes "-expect")

abbrev pub set_shell_option : ShellOptions → Bytes → Bytes → Result BuiltinError ShellOptions
set_shell_option o a v =
    if bytes_eq a (codes "-exit")
    then (or_bad bad_exit (atoi v) >>= λ n. ok (record o { expect_exit = some n }))
    else if bytes_eq a (codes "-match")
    then ok (record o { match_pattern = v })
    else ok (record o { expect_output = v })

unfoldable pub shell_options : ShellOptions → List Bytes → Result BuiltinError ShellOptions
shell_options o [] = ok o
shell_options o (a ∷ []) =
    if is_shell_option a then err missing_argument else ok (record o { shell_cmd = a })
shell_options o (a ∷ v ∷ args) =
    let set = set_shell_option o a v >>= λ o'. shell_options o' args in
    let command = shell_options (record o { shell_cmd = a }) (v ∷ args) in
    if is_shell_option a then set else command

-- What the system says of a command line: no exit code if it cannot be run, else the code and the
-- output; and `regexp.MatchString`.
pub record Shell : Type 0 where
  pub run : Bytes → Option (ℤ × Bytes)
  pub match_string : Bytes → Bytes → Option Bool

module _ (sys : Shell) where
  abbrev pub exit_differs : Option ℤ → ℤ → Bool
  exit_differs none code = false
  exit_differs (some n) code = not (int_equal code n)

  abbrev pub check_output : ShellOptions → Bytes → Result BuiltinError (Unit {0})
  check_output o output =
      if not (bytes_eq o.expect_output []) && not (bytes_eq (trim_space output) o.expect_output)
      then err wrong_output
      else ok tt

  abbrev check_match : ShellOptions → Bytes → Option Bool → Result BuiltinError (Unit {0})
  check_match o output none = err bad_pattern
  check_match o output (some false) = err no_match
  check_match o output (some true) = check_output o output

  abbrev pub check_shell : ShellOptions → Option (ℤ × Bytes) → Result BuiltinError (Unit {0})
  check_shell o none = err exec_failed
  check_shell o (some (code, output)) =
      if exit_differs o.expect_exit code
      then err wrong_exit
      else if bytes_eq o.match_pattern []
      then check_output o output
      else check_match o output (sys.match_string o.match_pattern output)

  abbrev pub expanded_shell : Store → ShellOptions → Result BuiltinError (Unit {0})
  expanded_shell ms o = elim (expand ms o.shell_cmd) [
    | err e ↦ err expansion_failed
    | ok line ↦ check_shell o (sys.run line)
  ]

  abbrev pub run_shell : Store → ShellOptions → Result BuiltinError (Unit {0})
  run_shell ms o = if bytes_eq o.shell_cmd [] then err missing_argument else expanded_shell ms o

  unfoldable pub cmd_shell : Store → List Bytes → Result BuiltinError (Unit {0})
  unfolding shell_options
  cmd_shell ms [] = err missing_argument
  cmd_shell ms (a ∷ args) = shell_options new_shell_options (a ∷ args) >>= λ o. run_shell ms o

-- What the system has: commands, the root user, groups, which may not be found, and networks.
pub record Features : Type 0 where
  pub look_path : Bytes → Bool
  pub is_root : Bool
  pub in_group : Bytes → Option Bool
  pub has_ipv4 : Bool
  pub has_ipv6 : Bool

-- Whether the test goes on, or is skipped.
pub data FeatureCall : Type 0 where
  available skips : FeatureCall

module _ (sys : Features) where
  abbrev is_member : Option Bool → Bool
  is_member none = false
  is_member (some b) = b

  abbrev takes_argument : Bytes → Bool
  takes_argument a =
      bytes_eq a (codes "cmd") || bytes_eq a (codes "user") || bytes_eq a (codes "group")

  -- The features with an argument.
  abbrev has_named : Bytes → Bytes → Bool
  has_named a v =
      if bytes_eq a (codes "cmd")
      then sys.look_path v
      else if bytes_eq a (codes "user")
      then not (sys.is_root && not (bytes_eq v (codes "root")))
      else is_member (sys.in_group v)

  -- The features without one; `none` is unknown.
  abbrev has_plain : Bytes → Option Bool
  has_plain a =
      if bytes_eq a (codes "SO_RCVTIMEO_WORKS") || bytes_eq a (codes "dns")
      then some true
      else if bytes_eq a (codes "ipv4")
      then some sys.has_ipv4
      else if bytes_eq a (codes "ipv6")
      then some sys.has_ipv6
      else none

  abbrev go_on_if : Bool → Result BuiltinError FeatureCall → Result BuiltinError FeatureCall
  go_on_if true rest = rest
  go_on_if false rest = ok skips

  abbrev go_on_plain :
      Option Bool → Result BuiltinError FeatureCall → Result BuiltinError FeatureCall
  go_on_plain none rest = err unknown_feature
  go_on_plain (some b) rest = go_on_if b rest

  unfoldable pub features : List Bytes → Result BuiltinError FeatureCall
  features [] = ok available
  features (a ∷ []) =
      if takes_argument a then err missing_argument else go_on_plain (has_plain a) (ok available)
  features (a ∷ v ∷ args) =
      let named = go_on_if (has_named a v) (features args) in
      let plain = go_on_plain (has_plain a) (features (v ∷ args)) in
      if takes_argument a then named else plain

  unfoldable pub cmd_feature : List Bytes → Result BuiltinError FeatureCall
  unfolding features
  cmd_feature [] = err missing_argument
  cmd_feature (a ∷ args) = features (a ∷ args)
