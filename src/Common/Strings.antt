-- ===== src/Common/Strings.antt =====
-- The functions of Go's `strings` package that the program uses, on byte strings.
use Prim.Native.Nat.{ℕ, suc, ◌<◌}
use mathlib.Core.Path.{◌≡◌, refl, sym, ap, subst}
use mathlib.Core.Bool.{Bool, true, false, not, ◌&&◌, ◌||◌}
use mathlib.Core.List.{[], ◌∷◌, ◌++◌}
use mathlib.Core.Option.{Option, none, some}
use mathlib.Core.Logic.{◌↔◌, inl, inr}
use native.Mathlib.Omega.{arith}
use gtest.Common.Tests.{◌==◌, if◌then◌else◌, Bool-cases, Option-cases}
use gtest.Common.Lists.{Bytes, length}

-- `strings.HasPrefix`
unfoldable pub has_prefix : Bytes → Bytes → Bool
has_prefix s [] = true
has_prefix [] (p ∷ ps) = false
has_prefix (c ∷ cs) (p ∷ ps) = (c == p) && has_prefix cs ps

abbrev pub next_index : Option ℕ → Option ℕ
next_index none = none
next_index (some i) = some (suc i)

-- `strings.Index`, `none` for -1, of a pattern that is not empty.
unfoldable pub index : Bytes → Bytes → Option ℕ
index [] p = none
index (c ∷ cs) p = if has_prefix (c ∷ cs) p then some 0 else next_index (index cs p)

-- An index is a place in the string.
pub index-lt : (s p : Bytes) {i : ℕ} → index s p ≡ some i → i < length s
unfolding index
index-lt [] p e = cc
index-lt (c ∷ cs) p {i} e = elim (Bool-cases (has_prefix (c ∷ cs) p)) [
  | inl h ↦ ground arith
  | inr h ↦ elim (Option-cases (index cs p)) [
    | inl n ↦ ground arith
    | inr (j, n) ↦ ground (arith, index-lt cs p n)
  ]
]

-- The bytes up to the first place at which a pattern can begin.
unfoldable pub lacks : Bytes → Bytes → Bool
lacks [] p = true
lacks (c ∷ cs) p = not (has_prefix (c ∷ cs) p) && lacks cs p

pub index-lacks : (s p : Bytes) → lacks s p ≡ true → index s p ≡ none
unfolding index lacks
index-lacks [] p h = refl
index-lacks (c ∷ cs) p h = ground (arith, index-lacks cs p)

-- `strings.Contains`
unfoldable pub contains : Bytes → Bytes → Bool
contains [] p = has_prefix [] p
contains (c ∷ cs) p = has_prefix (c ∷ cs) p || contains cs p

has_prefix-append : (s p : Bytes) → has_prefix s p ≡ true → (b : Bytes) × (s ≡ p ++ b)
unfolding has_prefix
has_prefix-append s [] h = (s, refl)
has_prefix-append [] (p ∷ ps) h = cc
has_prefix-append (c ∷ cs) (p ∷ ps) h =
    let (b, e) = has_prefix-append cs ps (ground arith) in
    let same : c ≡ p = ground arith in (b, rw (same, ← e))

append-has_prefix : (p b : Bytes) → has_prefix (p ++ b) p ≡ true
unfolding has_prefix
append-has_prefix [] [] = refl
append-has_prefix [] (c ∷ b) = refl
append-has_prefix (c ∷ p) b = ground (arith, append-has_prefix p b)

-- Whether a text stands somewhere in another.
abbrev pub Within : Bytes → Bytes → Type 0
Within p s = (a : Bytes) × (b : Bytes) × (s ≡ a ++ (p ++ b))

pub contains-Within : (s p : Bytes) → contains s p ≡ true → Within p s
unfolding contains
contains-Within [] p h = let (b, e) = has_prefix-append [] p h in ([], b, e)
contains-Within (c ∷ cs) p h = elim (Bool-cases (has_prefix (c ∷ cs) p)) [
  | inl k ↦ let (b, e) = has_prefix-append (c ∷ cs) p k in ([], b, e)
  | inr k ↦ let (a, b, e) = contains-Within cs p (rw k at h) in (c ∷ a, b, ap (◌∷◌ c) e)
]

contains-prefix : (s p : Bytes) → has_prefix s p ≡ true → contains s p ≡ true
unfolding contains
contains-prefix [] p h = h
contains-prefix (c ∷ cs) p h = rw h

Within-contains : (p a b : Bytes) → contains (a ++ (p ++ b)) p ≡ true
unfolding contains
Within-contains p [] b = contains-prefix (p ++ b) p (append-has_prefix p b)
Within-contains p (c ∷ a) b = ground (arith, Within-contains p a b)

-- `Contains` is true exactly of a text that stands somewhere in the other.
pub contains_iff : (s p : Bytes) → (contains s p ≡ true) ↔ Within p s
contains_iff s p = (
  contains-Within s p,
  λ (a, b, e). subst (λ t. contains t p ≡ true) (sym e) (Within-contains p a b),
)
