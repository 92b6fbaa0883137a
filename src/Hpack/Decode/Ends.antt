-- ===== src/Hpack/Decode/Ends.antt =====
-- The loop of `Decode` (pkg/hpack/decode.go) ends on every input.
use gtest.Common.{
  ℕ, zero, suc, ◌≤◌, ◌≡◌, ◌≢◌, List, [], ◌∷◌, ◌++◌, Bytes, length, Result, ok, err, arith, ◌==◌,
  Bool-cases, inl, inr, to_int, refl,
}
use gtest.Hpack.Static.{HeaderField}
use gtest.Hpack.Table.{DynamicTable, lookup, LookupError}
use gtest.Hpack.Integer.{decode_integer, Read, IntegerError}
use gtest.Hpack.Integer.Decoding.{decode_integer_shrinks}
use gtest.Hpack.Text.{decode_string, decode_string_shrinks, TextError}
use gtest.Hpack.Decode.{
  DecodeError, stuck, Decoded, decode_indexed, decode_literal_with_indexing,
  decode_literal_never_indexed, decode_literal_without_indexing, Answer, Outcome, decoded, updated,
  failed, decode_one, decode_loop, decode, with_integer, with_text, with_entry, with_name, outcome,
  has_bit,
}

-- At most n bytes are left, or the error is one of Go's.
abbrev Leaves : ℕ → Result DecodeError Decoded → Type 0
Leaves n (ok d) = length d.unread ≤ n
Leaves n (err e) = e ≢ stuck

-- One rule for each of the steps that the field decoders are chained from.
with_integer-Leaves :
    (n : ℕ) (r : Read IntegerError ℕ) (f : ℕ → Bytes → Result DecodeError Decoded)
    → length r.1 ≤ n
    → ((i : ℕ) (rest : Bytes) → length rest ≤ n → Leaves n (f i rest))
    → Leaves n (with_integer r f)
with_integer-Leaves n (ok i, rest) f h k = k i rest h
with_integer-Leaves n (err e, rest) f h k = λ x. cc

with_text-Leaves :
    (n : ℕ) (r : Read TextError Bytes) (f : Bytes → Bytes → Result DecodeError Decoded)
    → length r.1 ≤ n
    → ((s rest : Bytes) → length rest ≤ n → Leaves n (f s rest))
    → Leaves n (with_text r f)
with_text-Leaves n (ok s, rest) f h k = k s rest h
with_text-Leaves n (err e, rest) f h k = λ x. cc

with_entry-Leaves :
    (n : ℕ) (r : Result LookupError HeaderField) (f : HeaderField → Result DecodeError Decoded)
    → ((hf : HeaderField) → Leaves n (f hf))
    → Leaves n (with_entry r f)
with_entry-Leaves n (ok hf) f k = k hf
with_entry-Leaves n (err e) f k = λ x. cc

with_name-Leaves :
    (n : ℕ) (t : DynamicTable) (i : ℕ) (rest : Bytes)
    (f : Bytes → Bytes → Result DecodeError Decoded)
    → length rest ≤ n
    → ((s rest' : Bytes) → length rest' ≤ n → Leaves n (f s rest'))
    → Leaves n (with_name t i rest f)
with_name-Leaves n t i rest f h k = elim (Bool-cases (i == 0)) [
  | inl e ↦
      rw e (with_text-Leaves n (decode_string rest) f (omega (arith, decode_string_shrinks rest)) k)
  | inr e ↦ rw e (with_entry-Leaves n (lookup t (to_int i)) _ (λ hf. k hf.name rest h))
]

module _ (t : DynamicTable) (b : ℕ) (rest : Bytes) where
  literal-Leaves :
      (n : ℕ) (f : Bytes → Bytes → Bytes → Result DecodeError Decoded)
      → 1 ≤ n
      → n ≤ 8
      → ((name value left : Bytes)
          → length left ≤ length rest
          → Leaves (length rest) (f name value left))
      → Leaves (length rest) (
          with_integer (decode_integer (b ∷ rest) n) λ i rest1.
            with_name t i rest1
              λ name rest2. with_text (decode_string rest2) λ value rest3. f name value rest3)
  literal-Leaves n f lo hi k =
      with_integer-Leaves _ (decode_integer (b ∷ rest) n) _ (decode_integer_shrinks b rest n lo hi)
        λ i rest1 h1. with_name-Leaves _ t i rest1 _ h1 λ name rest2 h2.
          with_text-Leaves _ (decode_string rest2) _ (omega (arith, decode_string_shrinks rest2))
            λ value rest3 h3. k name value rest3 h3

  decode_indexed-Leaves : Leaves (length rest) (decode_indexed t (b ∷ rest))
  unfolding decode_indexed
  decode_indexed-Leaves =
      with_integer-Leaves _ (decode_integer (b ∷ rest) 7) _
        (decode_integer_shrinks b rest 7 (omega arith) (omega arith))
        λ i rest1 h1. elim (Bool-cases (i == 0)) [
          | inl e ↦ rw e (λ x. cc)
          | inr e ↦ rw e (with_entry-Leaves _ (lookup t (to_int i)) _ (λ hf. h1))
        ]

  decode_literal_with_indexing-Leaves :
      Leaves (length rest) (decode_literal_with_indexing t (b ∷ rest))
  unfolding decode_literal_with_indexing
  decode_literal_with_indexing-Leaves =
      literal-Leaves 6 _ (omega arith) (omega arith) (λ n v left h. h)

  decode_literal_never_indexed-Leaves :
      Leaves (length rest) (decode_literal_never_indexed t (b ∷ rest))
  unfolding decode_literal_never_indexed
  decode_literal_never_indexed-Leaves =
      literal-Leaves 4 _ (omega arith) (omega arith) (λ n v left h. h)

  decode_literal_without_indexing-Leaves :
      Leaves (length rest) (decode_literal_without_indexing t (b ∷ rest))
  unfolding decode_literal_without_indexing
  decode_literal_without_indexing-Leaves =
      literal-Leaves 4 _ (omega arith) (omega arith) (λ n v left h. h)

abbrev Progress : ℕ → Outcome → Type 0
Progress n (decoded d) = length d.unread ≤ n
Progress n (updated t rest) = length rest ≤ n
Progress n (failed e) = e ≢ stuck

outcome-Progress : (n : ℕ) (r : Result DecodeError Decoded) → Leaves n r → Progress n (outcome r)
outcome-Progress n (ok d) h = h
outcome-Progress n (err e) h = h

decode_one-Progress :
    (t : DynamicTable) (b : ℕ) (rest : Bytes) → Progress (length rest) (decode_one t b rest)
unfolding decode_one
decode_one-Progress t b rest = elim (Bool-cases (has_bit b 0x80)) [
  | inl e ↦ rw e (outcome-Progress _ _ (decode_indexed-Leaves t b rest))
  | inr e ↦ rw e (elim (Bool-cases (has_bit b 0x40)) [
    | inl e ↦ rw e (outcome-Progress _ _ (decode_literal_with_indexing-Leaves t b rest))
    | inr e ↦ rw e (elim (Bool-cases (has_bit b 0x20)) [
      | inl e ↦ rw e (decode_integer_shrinks b rest 5 (omega arith) (omega arith))
      | inr e ↦ rw e (elim (Bool-cases (has_bit b 0x10)) [
        | inl e ↦ rw e (outcome-Progress _ _ (decode_literal_never_indexed-Leaves t b rest))
        | inr e ↦ rw e (outcome-Progress _ _ (decode_literal_without_indexing-Leaves t b rest))
      ])
    ])
  ])
]

-- One round, on what its step does.
module _ (fuel : ℕ) (t : DynamicTable) (b : ℕ) (rest : Bytes) (hs : List HeaderField) where
  pub decode_loop_decoded :
      {d : Decoded}
      → decode_one t b rest ≡ decoded d
      → decode_loop (suc fuel) t (b ∷ rest) hs
        ≡ decode_loop fuel d.table d.unread (hs ++ (d.header ∷ []))
  unfolding decode_loop
  decode_loop_decoded e = rw (e, decode_loop)

  pub decode_loop-updated :
      {t' : DynamicTable} {rest' : Bytes}
      → decode_one t b rest ≡ updated t' rest'
      → decode_loop (suc fuel) t (b ∷ rest) hs ≡ decode_loop fuel t' rest' hs
  unfolding decode_loop
  decode_loop-updated e = rw (e, decode_loop)

  pub decode_loop_failed :
      {x : DecodeError}
      → decode_one t b rest ≡ failed x
      → decode_loop (suc fuel) t (b ∷ rest) hs ≡ (err x, t)
  unfolding decode_loop
  decode_loop_failed e = rw (e, decode_loop)

err-injective :
    {x y : DecodeError} → ◌≡◌ {A = Result DecodeError (List HeaderField)} (err x) (err y) → x ≡ y
err-injective e = cc

abbrev IsAnswer : Answer → Type 0
IsAnswer a = a.0 ≢ err stuck

decode_loop-ne-stuck :
    (fuel : ℕ) (t : DynamicTable) (buf : Bytes) (hs : List HeaderField)
    → length buf ≤ fuel
    → IsAnswer (decode_loop fuel t buf hs)
decode_loop-ne-stuck fuel t [] hs h = unfold decode_loop in λ x. cc
decode_loop-ne-stuck zero t (b ∷ rest) hs h = absurd (omega arith)
decode_loop-ne-stuck (suc fuel) t (b ∷ rest) hs h =
    go (decode_one t b rest) refl (decode_one-Progress t b rest) (decode_loop-ne-stuck fuel)
  where
    go :
        (o : Outcome)
        → decode_one t b rest ≡ o
        → Progress (length rest) o
        → ((t' : DynamicTable) (buf : Bytes) (hs' : List HeaderField)
            → length buf ≤ fuel
            → IsAnswer (decode_loop fuel t' buf hs'))
        → IsAnswer (decode_loop (suc fuel) t (b ∷ rest) hs)
    go (decoded d) e p ih =
        rw (decode_loop_decoded fuel t b rest hs e) (ih d.table d.unread _ (omega arith))
    go (updated t' rest') e p ih =
        rw (decode_loop-updated fuel t b rest hs e) (ih t' rest' hs (omega arith))
    go (failed x) e p ih = rw (decode_loop_failed fuel t b rest hs e) (λ q. p (err-injective q))

-- `Decode` ends on every input: its loop never runs out of fuel.
pub decode-ne-stuck : (t : DynamicTable) (buf : Bytes) → (decode t buf).0 ≢ err stuck
unfolding decode
decode-ne-stuck t buf = decode_loop-ne-stuck (length buf) t buf [] (omega arith)
