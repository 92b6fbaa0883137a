-- ===== src/Macro/Expansion.antt =====
-- `Expand` of pkg/macro/macro.go: what it makes of a text with macros, and that it ends.
use gtest.Common.{
  ℕ, zero, suc, ◌+◌, ◌-◌, ◌≤◌, ◌<◌, ◌≡◌, refl, ap, ◌∙◌, Bool, true, List, [], ◌∷◌, ◌++◌, none, some,
  Option-cases, inl, inr, append-nil, append_assoc, Bytes, length, length-append, All, take, drop,
  take_append, drop_append, drop_past, Result, ok, err, arith,
}
use gtest.Common.Strings.{has_prefix, index, lacks, index-lacks}
use gtest.Macro.{
  Store, get, ExpandError, not_found, finish, next, missing, expand_round, expand_loop, expand,
  expand_dynamic, or_else, valued,
}

-- A text as the pieces between its macros: a literal and the name of the macro behind it, and so on,
-- and the literal at the end.
abbrev pub Pieces : Type 0
Pieces = List (Bytes × Bytes)

abbrev open_brace : Bytes
open_brace = b'$' ∷ b'{' ∷ []

abbrev macro_text : Bytes → Bytes → Bytes
macro_text n rest = b'$' ∷ b'{' ∷ (n ++ (b'}' ∷ rest))

unfoldable pub render : Pieces → Bytes → Bytes
render [] last = last
render ((lit, n) ∷ ps) last = lit ++ macro_text n (render ps last)

-- A literal has no "${" in it.
abbrev pub is_literal : Bytes → Bool
is_literal s = lacks s open_brace

-- A name has no "}" in it.
abbrev pub is_name : Bytes → Bool
is_name n = lacks n (b'}' ∷ [])

index_open :
    (lit rest : Bytes)
    → is_literal lit ≡ true
    → index (lit ++ (b'$' ∷ b'{' ∷ rest)) open_brace ≡ some (length lit)
unfolding index lacks has_prefix
index_open [] rest h = refl
index_open (c ∷ []) rest h = ground arith
index_open (c ∷ d ∷ cs) rest h = ground (arith, index_open (d ∷ cs) rest)

index_close :
    (n rest : Bytes) → is_name n ≡ true → index (n ++ (b'}' ∷ rest)) (b'}' ∷ []) ≡ some (length n)
unfolding index lacks has_prefix
index_close [] rest h = refl
index_close (c ∷ cs) rest h = ground (arith, index_close cs rest)

index_name :
    (n rest : Bytes)
    → is_name n ≡ true
    → index (macro_text n rest) (b'}' ∷ []) ≡ some (suc (suc (length n)))
unfolding index has_prefix
index_name n rest k = rw (index_close n rest k) refl

valued_get :
    (ms : Store) (lit rest n : Bytes)
    → valued lit rest n (or_else (get ms n) (expand_dynamic n)) ≡ valued lit rest n (get ms n)
unfolding expand_dynamic
valued_get ms lit rest n = elim (Option-cases (get ms n)) [
  | inl e ↦ rw e refl
  | inr (v, e) ↦ rw e refl
]

-- A text with no macro ends the loop.
expand_round-last :
    (ms : Store) (last : Bytes) → is_literal last ≡ true → expand_round ms last ≡ finish last
unfolding expand_round
expand_round-last ms last h = rw (index-lacks last open_brace h) refl

-- A round takes the first piece.
expand_round-piece :
    (ms : Store) (lit n rest : Bytes)
    → is_literal lit ≡ true
    → is_name n ≡ true
    → expand_round ms (lit ++ macro_text n rest) ≡ valued lit rest n (get ms n)
unfolding expand_round
expand_round-piece ms lit n rest h k =
    let text = macro_text n rest in
    let end = suc (suc (length n)) + length lit in
    let width : end - (length lit + 2) ≡ length n = omega arith in
    let past : end + 1 ≡ length lit + suc (suc (length n + 1)) = omega arith in
    let name : take (end - (length lit + 2)) (drop (length lit + 2) (lit ++ text)) ≡ n =
      rw (width, drop_past lit text 2) (take_append n (b'}' ∷ rest)) in
    let behind : drop (end + 1) (lit ++ text) ≡ rest =
      rw (past, drop_past lit text (suc (suc (length n + 1)))) (drop_past n (b'}' ∷ rest) 1) in
    rw
      (
        index_open lit (n ++ (b'}' ∷ rest)) h,
        drop_append lit text,
        index_name n rest k,
        name,
        behind,
        take_append lit text,
      )
      (valued_get ms lit rest n)

-- A result with some text before it.
unfoldable pub behind_result : Bytes → Result ExpandError Bytes → Result ExpandError Bytes
behind_result result (ok r) = ok (result ++ r)
behind_result result (err e) = err e

behind_result-append :
    (a b : Bytes) (r : Result ExpandError Bytes)
    → behind_result (a ++ b) r ≡ behind_result a (behind_result b r)
unfolding behind_result
behind_result-append a b (ok r) = ap ok (append_assoc a b r)
behind_result-append a b (err e) = refl

behind_result_nil : (r : Result ExpandError Bytes) → behind_result [] r ≡ r
unfolding behind_result
behind_result_nil (ok r) = refl
behind_result_nil (err e) = refl

-- The pieces with each name replaced by its value, or the first name that has none.
unfoldable pub substituted : Store → Pieces → Bytes → Result ExpandError Bytes
unfolding behind_result
substituted ms [] last = ok last
substituted ms ((lit, n) ∷ ps) last = elim (get ms n) [
  | none ↦ err (not_found n)
  | some v ↦ behind_result (lit ++ v) (substituted ms ps last)
]

abbrev pub IsPiece : Bytes × Bytes → Type 0
IsPiece (lit, n) = (is_literal lit ≡ true) × (is_name n ≡ true)

module _ (ms : Store) (fuel : ℕ) (result : Bytes) where
  expand_loop_next :
      (text : Bytes) {t rest : Bytes}
      → 0 < length text
      → expand_round ms text ≡ next t rest
      → expand_loop (suc fuel) ms text result ≡ expand_loop fuel ms rest (result ++ t)
  unfolding expand_loop
  expand_loop_next [] h e = ground arith
  expand_loop_next (c ∷ cs) h e = rw (e, expand_loop) refl

  expand_loop_missing :
      (text : Bytes) {n : Bytes}
      → 0 < length text
      → expand_round ms text ≡ missing n
      → expand_loop (suc fuel) ms text result ≡ err (not_found n)
  unfolding expand_loop
  expand_loop_missing [] h e = ground arith
  expand_loop_missing (c ∷ cs) h e = rw (e, expand_loop) refl

macro_text_longer : (lit n rest : Bytes) → suc (length rest) ≤ length (lit ++ macro_text n rest)
macro_text_longer lit n rest =
    omega (arith, length-append lit (macro_text n rest), length-append n (b'}' ∷ rest))

expand_loop-render :
    (ms : Store) (ps : Pieces) (last result : Bytes) (fuel : ℕ)
    → All IsPiece ps
    → is_literal last ≡ true
    → length (render ps last) ≤ fuel
    → expand_loop fuel ms (render ps last) result ≡ behind_result result (substituted ms ps last)
unfolding render expand_loop substituted behind_result
expand_loop-render ms [] [] result fuel hs h enough = rw (append-nil result) refl
expand_loop-render ms [] (c ∷ cs) result zero hs h enough = ground arith
expand_loop-render ms [] (c ∷ cs) result (suc fuel) hs h enough =
    rw (expand_round-last ms (c ∷ cs) h, expand_loop) refl
expand_loop-render ms ((lit, n) ∷ ps) last result zero hs hl enough =
    let longer = macro_text_longer lit n (render ps last) in ground arith
expand_loop-render ms ((lit, n) ∷ ps) last result (suc fuel) ((h, k), hs) hl enough =
    let rest = render ps last in
    let text = lit ++ macro_text n rest in
    let longer = macro_text_longer lit n rest in
    let some_text : 0 < length text = omega arith in
    let round = expand_round-piece ms lit n rest h k in
    elim (Option-cases (get ms n)) [
      | inl e ↦
          let at : expand_round ms text ≡ missing n = rw (round, e) refl in
          rw (expand_loop_missing ms fuel result text some_text at, e, substituted) refl
      | inr (v, e) ↦
          let at : expand_round ms text ≡ next (lit ++ v) rest = rw (round, e) refl in
          let less : length rest ≤ fuel = omega arith in
          let ih = expand_loop-render ms ps last (result ++ (lit ++ v)) fuel hs hl less in
          rw (expand_loop_next ms fuel result text some_text at, ih, e, substituted)
            (behind_result-append result (lit ++ v) (substituted ms ps last))
    ]

-- On a text of pieces whose literals hold no "${" and whose names hold no "}", `Expand` gives the
-- literals with the value of each name between them, and where a name has no value the error that
-- names the first of these. A value is not expanded again.
pub expand-render :
    (ms : Store) (ps : Pieces) (last : Bytes)
    → All IsPiece ps
    → is_literal last ≡ true
    → expand ms (render ps last) ≡ substituted ms ps last
unfolding expand
expand-render ms ps last hs hl =
    let enough : length (render ps last) ≤ length (render ps last) = omega arith in
    expand_loop-render ms ps last [] (length (render ps last)) hs hl enough
    ∙ behind_result_nil (substituted ms ps last)
