-- ===== src/Http2/Commands/Comparing.antt =====
-- What the operators of `Expect` in pkg/http2/commands.go promise.
use gtest.Common.{
  ℕ, ◌≡◌, ◌↔◌, inl, inr, refl, Bool, true, false, not, ◌||◌, List, [], ◌∷◌, Option, none, some,
  Bytes, codes, bytes_eq, Option-cases, chain, ℤ, Result, ok, err, arith,
}
use gtest.Common.Numerals.{atoi}
use gtest.Http1.Expect.{int_less}
use gtest.Http2.Stream.{Stream, get}
use gtest.Http2.Conn.{Conn}
use gtest.Http2.Commands.{ExpectFailure, done, failed, stream_not_found}
use gtest.Http2.Commands.Expect.{field_value, passed_if, compare, compared, answered, expect}

answered_done : (c : Conn) (o : Option ExpectFailure) → ((answered c o).1 ≡ done) ↔ (o ≡ none)
answered_done c none = ((λ e. refl), (λ e. refl))
answered_done c (some x) = ((λ e. absurd cc), (λ e. absurd cc))

passed_iff : (b : Bool) → (passed_if b ≡ none) ↔ (b ≡ true)
passed_iff true = ((λ e. refl), (λ e. refl))
passed_iff false = ((λ e. absurd cc), (λ e. absurd cc))

failed_iff : (b : Bool) → (passed_if (not b) ≡ none) ↔ ¬ (b ≡ true)
failed_iff true = ((λ e. absurd cc), (λ h. absurd (h refl)))
failed_iff false = ((λ e h. cc), (λ h. refl))

-- The test that `expect` makes is the comparison of the field's value.
module _ (c : Conn) (i : ℕ) (s : Stream) (field actual op expected : Bytes)
    (there : get c.streams i ≡ some s) (value : field_value s field ≡ ok actual) where
  expect-compare : ((expect c i field op expected).1 ≡ done) ↔ (compare actual op expected ≡ none)
  unfolding expect
  expect-compare = rw (there, value) (answered_done c (compare actual op expected))

-- On a field of a stream that is there, `expect` with `<`, `>`, `<=` and `>=` compares the numbers that
-- Atoi reads, where it reads both.
pub expect_number_iff :
    (c : Conn) (i : ℕ) (s : Stream) (field actual expected : Bytes) (m n : ℤ)
    → get c.streams i ≡ some s
    → field_value s field ≡ ok actual
    → atoi actual ≡ some m
    → atoi expected ≡ some n
    → (((expect c i field (codes "<") expected).1 ≡ done) ↔ (int_less m n ≡ true))
      × (((expect c i field (codes ">") expected).1 ≡ done) ↔ (int_less n m ≡ true))
      × (((expect c i field (codes "<=") expected).1 ≡ done) ↔ ¬ (int_less n m ≡ true))
      × (((expect c i field (codes ">=") expected).1 ≡ done) ↔ ¬ (int_less m n ≡ true))
unfolding compare bytes_eq
expect_number_iff c i s field actual expected m n there value read read' =
    let by = λ (op : Bytes). expect-compare c i s field actual op expected there value in
    (
      chain (by (codes "<")) (rw (read, read') (passed_iff (int_less m n))),
      chain (by (codes ">")) (rw (read, read') (passed_iff (int_less n m))),
      chain (by (codes "<=")) (rw (read, read') (failed_iff (int_less n m))),
      chain (by (codes ">=")) (rw (read, read') (failed_iff (int_less m n))),
    )

abbrev pub operators : List Bytes
operators =
    codes "=="
    ∷ codes "!="
    ∷ codes "~"
    ∷ codes "!~"
    ∷ codes "<"
    ∷ codes ">"
    ∷ codes "<="
    ∷ codes ">="
    ∷ []

abbrev pub is_operator : Bytes → List Bytes → Bool
is_operator op [] = false
is_operator op (o ∷ os) = bytes_eq op o || is_operator op os

compare-is_operator :
    (actual op expected : Bytes)
    → compare actual op expected ≡ none
    → is_operator op operators ≡ true
unfolding compare
compare-is_operator actual op expected h = ground (arith, h)

-- What a passed comparison of a field says.
record Passed (s : Stream) (field op expected : Bytes) : Type 0 where
  actual : Bytes
  value : field_value s field ≡ ok actual
  known : is_operator op operators ≡ true
  compares : compare actual op expected ≡ none

passed :
    (s : Stream) (field op expected : Bytes) (r : Result ExpectFailure Bytes)
    → field_value s field ≡ r
    → compared op expected r ≡ none
    → Passed s field op expected
passed s field op expected (err x) e h = absurd cc
passed s field op expected (ok actual) e h = record {
  actual = actual;
  value = e;
  known = compare-is_operator actual op expected h;
  compares = h;
}

not_done : (c : Conn) → (failed stream_not_found ≡ done) → ⊥
not_done c e = cc

-- An `expect` that passes names a stream that is there, a field that has a value, of which the
-- comparison holds, and one of the eight operators.
pub expect_done :
    (c : Conn) (i : ℕ) (field op expected : Bytes)
    → (expect c i field op expected).1 ≡ done
    → (s : Stream) × (actual : Bytes) × (get c.streams i ≡ some s)
      × (field_value s field ≡ ok actual)
      × (is_operator op operators ≡ true)
      × (compare actual op expected ≡ none)
unfolding expect
expect_done c i field op expected h = elim (Option-cases (get c.streams i)) [
  | inl e ↦ absurd (not_done c (rw (e, expect) at h))
  | inr (s, e) ↦
      let p =
        passed s field op expected (field_value s field) refl (
          (answered_done c (compared op expected (field_value s field))).0 (rw (e, expect) at h)) in
      (s, p.actual, e, p.value, p.known, p.compares)
]
