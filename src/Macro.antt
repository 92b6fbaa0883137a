-- ===== src/Macro.antt =====
-- pkg/macro/macro.go: the macro store and the expansion of ${name}. The lock makes each method one
-- step; the logger is left out.
pub mod Expansion
pub mod Ends
use gtest.Common.{
  ℕ, zero, suc, ◌+◌, ◌-◌, Bool, true, false, List, [], ◌∷◌, ◌++◌, Option, none, some, Bytes, codes,
  length, take, drop, Result, ok, err,
}
use gtest.Common.Maps.{lookup, insert, delete, bytes_key}
use gtest.Common.Strings.{index}

abbrev pub Store : Type 0
Store = List (Bytes × Bytes)

abbrev pub new_store : Store
new_store = []

unfoldable pub define : Store → Bytes → Bytes → Store
define ms n v = insert n v ms

unfoldable pub get : Store → Bytes → Option Bytes
get ms n = lookup n ms

unfoldable pub remove : Store → Bytes → Store
remove ms n = delete n ms

-- The loops of `All`, `Clone`, `Merge` and `DefineMultiple`: every entry of the second map is
-- written to the first.
unfoldable pub merge : Store → Store → Store
merge ms [] = ms
merge ms ((n, v) ∷ other) = merge (insert n v ms) other

unfoldable pub clone : Store → Store
unfolding merge
clone ms = merge new_store ms

unfoldable pub count : Store → ℕ
count ms = length ms

unfoldable pub clear : Store → Store
clear ms = []

abbrev pub is_some {ℓ} : {A : Type ℓ} → Option A → Bool
is_some none = false
is_some (some a) = true

unfoldable pub exists : Store → Bytes → Bool
exists ms n = is_some (lookup n ms)

-- `stuck` is no Go value: the loop of `expand` ran out of fuel.
pub data ExpandError : Type 0 where
  not_found : Bytes → ExpandError
  stuck : ExpandError

-- `expandDynamic` knows no name.
unfoldable pub expand_dynamic : Bytes → Option Bytes
expand_dynamic n = none

abbrev pub or_else {ℓ} : {A : Type ℓ} → Option A → Option A → Option A
or_else (some a) b = some a
or_else none b = b

-- What a round of the loop does: stop with some text, go on behind a macro, or fail.
pub data Round : Type 0 where
  finish : Bytes → Round
  next : Bytes → Bytes → Round
  missing : Bytes → Round

abbrev pub valued : Bytes → Bytes → Bytes → Option Bytes → Round
valued before rest n (some v) = next (before ++ v) rest
valued before rest n none = missing n

abbrev pub closed_at : Store → Bytes → ℕ → Option ℕ → Round
closed_at ms text start none = finish text
closed_at ms text start (some e) =
    let end = e + start in
    let n = take (end - (start + 2)) (drop (start + 2) text) in
    valued (take start text) (drop (end + 1) text) n (or_else (get ms n) (expand_dynamic n))

abbrev pub opened_at : Store → Bytes → Option ℕ → Round
opened_at ms text none = finish text
opened_at ms text (some start) = closed_at ms text start (index (drop start text) (codes "}"))

unfoldable pub expand_round : Store → Bytes → Round
unfolding expand_dynamic
expand_round ms text = opened_at ms text (index text (codes "$" ++ codes "{"))

unfoldable pub expand_loop : ℕ → Store → Bytes → Bytes → Result ExpandError Bytes
expand_loop fuel ms [] result = ok result
expand_loop zero ms (c ∷ cs) result = err stuck
expand_loop (suc fuel) ms (c ∷ cs) result = elim (expand_round ms (c ∷ cs)) [
  | finish t ↦ ok (result ++ t)
  | next t rest ↦ expand_loop fuel ms rest (result ++ t)
  | missing n ↦ err (not_found n)
]

-- Each round takes a macro off, so the length of the text is enough fuel.
unfoldable pub expand : Store → Bytes → Result ExpandError Bytes
expand ms text = expand_loop (length text) ms text []

-- `MustExpand` is `expand` with a panic for the error.
unfoldable pub expand_or_default : Store → Bytes → Bytes → Bytes
expand_or_default ms text default = elim (expand ms text) [ ok r ↦ r | err e ↦ default ]
