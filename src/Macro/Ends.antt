-- ===== src/Macro/Ends.antt =====
-- The loop of `Expand` (pkg/macro/macro.go) ends: each round takes a part of the text off.
use gtest.Common.{
  ℕ, zero, suc, ◌+◌, ◌≤◌, ◌<◌, ◌≡◌, ◌≢◌, refl, [], ◌∷◌, ◌++◌, Option, none, some, Bytes, codes,
  length, length-drop, Result, err, arith,
}
use gtest.Common.Strings.{index, index-lt}
use gtest.Macro.{
  Store, ExpandError, not_found, stuck, Round, finish, next, missing, expand_round, expand_loop,
  expand, valued, closed_at, opened_at,
}

-- What a round leaves is shorter than its text.
IsShorter : Bytes → Round → Type 0
IsShorter text (finish t) = Unit {0}
IsShorter text (next t rest) = length rest < length text
IsShorter text (missing n) = Unit {0}

valued_shrinks :
    (text before rest n : Bytes) (v : Option Bytes)
    → length rest < length text
    → IsShorter text (valued before rest n v)
unfolding IsShorter
valued_shrinks text before rest n none h = tt
valued_shrinks text before rest n (some v) h = h

closed_at_shrinks :
    (ms : Store) (text : Bytes) (start : ℕ) (e : Option ℕ)
    → start < length text
    → IsShorter text (closed_at ms text start e)
unfolding IsShorter
closed_at_shrinks ms text start none h = tt
closed_at_shrinks ms text start (some e) h =
    let shorter = length-drop (e + start + 1) text in valued_shrinks text _ _ _ _ (omega arith)

opened_at_shrinks :
    (ms : Store) (text : Bytes) (i : Option ℕ)
    → index text (codes "$" ++ codes "{") ≡ i
    → IsShorter text (opened_at ms text i)
unfolding IsShorter
opened_at_shrinks ms text none h = tt
opened_at_shrinks ms text (some start) h =
    closed_at_shrinks ms text start _ (index-lt text (codes "$" ++ codes "{") h)

expand_round_shrinks : (ms : Store) (text : Bytes) → IsShorter text (expand_round ms text)
unfolding expand_round
expand_round_shrinks ms text = opened_at_shrinks ms text _ refl

not_found-stuck : {n : Bytes} → ◌≢◌ {A = Result ExpandError Bytes} (err (not_found n)) (err stuck)
not_found-stuck e = cc

expand_loop-ne-stuck :
    (fuel : ℕ) (ms : Store) (text result : Bytes)
    → length text ≤ fuel
    → expand_loop fuel ms text result ≢ err stuck
unfolding IsShorter expand_loop
expand_loop-ne-stuck fuel ms [] result h = unfold expand_loop in λ x. cc
expand_loop-ne-stuck zero ms (c ∷ cs) result h = ground arith
expand_loop-ne-stuck (suc fuel) ms (c ∷ cs) result h =
    go (expand_round ms (c ∷ cs)) refl (expand_round_shrinks ms (c ∷ cs))
      (expand_loop-ne-stuck fuel ms)
  where
    go :
        (r : Round)
        → expand_round ms (c ∷ cs) ≡ r
        → IsShorter (c ∷ cs) r
        → ((text' result' : Bytes)
            → length text' ≤ fuel
            → expand_loop fuel ms text' result' ≢ err stuck)
        → expand_loop (suc fuel) ms (c ∷ cs) result ≢ err stuck
    go (finish t) e p ih = rw (e, expand_loop) (λ x. cc)
    go (next t rest) e p ih = rw (e, expand_loop) (ih rest (result ++ t) (omega arith))
    go (missing n) e p ih = rw (e, expand_loop) not_found-stuck

-- `Expand` ends on every store and every text: the length of the text is enough fuel.
pub expand-ne-stuck : (ms : Store) (text : Bytes) → expand ms text ≢ err stuck
unfolding expand
expand-ne-stuck ms text =
    let enough : length text ≤ length text = omega arith in
    expand_loop-ne-stuck (length text) ms text [] enough
