-- ===== src/Hpack/Table/Search/Places.antt =====
-- What the loops of `Search` find, and where `Lookup` has it (pkg/hpack/table.go).
use gtest.Common.{
  ℕ, suc, ◌+◌, ◌-◌, ◌≤◌, ◌<◌, ◌≡◌, refl, Bool, true, false, List, [], ◌∷◌, none, some, arith, ltb,
  Bytes, bytes_eq_iff, length, get_elem?, get_elem?-lt, All, ok, pos, Bool-cases, inl, inr,
}
use gtest.Hpack.Static.{HeaderField, static_table}
use gtest.Hpack.Table.{DynamicTable, Match, get, has_field, has_name, find_from, lookup}

-- The place of a passing entry, counted from `i`.
pub record Found (test : HeaderField → Bool) (i : ℕ) (hs : List HeaderField) (j : ℕ) : Type 0 where
  pub at : ℕ
  pub entry : HeaderField
  pub counted : j ≡ i + at
  pub there : get_elem? hs at ≡ some entry
  pub passes : test entry ≡ true

Found-cons :
    {test : HeaderField → Bool} {i j : ℕ} (hf : HeaderField) {hs : List HeaderField}
    → Found test (i + 1) hs j
    → Found test i (hf ∷ hs) j
Found-cons hf f = record {
  at = suc f.at;
  entry = f.entry;
  counted = omega (arith, f.counted);
  there = f.there;
  passes = f.passes;
}

pub find_from-some :
    (test : HeaderField → Bool) (i : ℕ) (hs : List HeaderField) {j : ℕ}
    → find_from test i hs ≡ some j
    → Found test i hs j
unfolding find_from
find_from-some test i [] e = cc
find_from-some test i (hf ∷ hs) {j} e = elim (Bool-cases (test hf)) [
  | inl p ↦ record { at = 0; entry = hf; counted = ground arith; there = refl; passes = p }
  | inr p ↦ Found-cons hf (find_from-some test (i + 1) hs (ground arith))
]

pub find_from-none :
    (test : HeaderField → Bool) (i : ℕ) (hs : List HeaderField)
    → find_from test i hs ≡ none
    → All (λ hf. test hf ≡ false) hs
unfolding find_from
find_from-none test i [] e = tt
find_from-none test i (hf ∷ hs) e = ground (arith, find_from-none test (i + 1) hs)

length-static_table : length static_table ≡ 61
unfolding static_table
length-static_table = refl

lookup_static :
    (t : DynamicTable) (i : ℕ) {hf : HeaderField}
    → get_elem? static_table i ≡ some hf
    → lookup t (pos (suc i)) ≡ ok hf
unfolding lookup
lookup_static t i {hf} e =
    let short : i < length static_table = get_elem?-lt static_table i e in
    let first : ltb i 61 ≡ true = ground (arith, length-static_table) in rw (first, e)

lookup_dynamic :
    (t : DynamicTable) (i : ℕ) {hf : HeaderField}
    → get_elem? t.entries i ≡ some hf
    → lookup t (pos (suc i + 61)) ≡ ok hf
unfolding lookup get
lookup_dynamic t i {hf} e =
    let shifted : suc i + 61 ≡ suc (61 + i) = omega arith in
    let later : ltb (61 + i) 61 ≡ false = ground arith in
    let back : suc (61 + i) - 61 ≡ suc i = omega arith in rw (shifted, later, back, get, e)

-- What a search promises: an entry of that index, its name and, for a full match, its value.
pub record Located (t : DynamicTable) (n v : Bytes) (r : Match) : Type 0 where
  pub entry : HeaderField
  pub looked_up : lookup t (pos r.index) ≡ ok entry
  pub named : entry.name ≡ n
  pub valued : r.value_match ≡ true → entry.value ≡ v
  pub positive : 0 < r.index
  pub bounded : r.index ≤ 61 + length t.entries

pub has_name-eq : (n : Bytes) (hf : HeaderField) → has_name n hf ≡ true → hf.name ≡ n
has_name-eq n hf h = (bytes_eq_iff hf.name n).0 h

pub has_field-eq :
    (n v : Bytes) (hf : HeaderField) → has_field n v hf ≡ true → (hf.name ≡ n) × (hf.value ≡ v)
has_field-eq n v hf h =
    ((bytes_eq_iff hf.name n).0 (ground arith), (bytes_eq_iff hf.value v).0 (ground arith))

module _ (t : DynamicTable) (n v : Bytes) (r : Match) where
  pub Located-static :
      {test : HeaderField → Bool} (f : Found test 1 static_table r.index)
      → f.entry.name ≡ n
      → (r.value_match ≡ true → f.entry.value ≡ v)
      → Located t n v r
  Located-static f hn hv =
      let next : 1 + f.at ≡ suc f.at = omega arith in
      record {
        entry = f.entry;
        looked_up = rw (f.counted, next) (lookup_static t f.at f.there);
        named = hn;
        valued = hv;
        positive = omega (arith, f.counted);
        bounded =
            omega (arith, f.counted, get_elem?-lt static_table f.at f.there, length-static_table);
      }

  pub Located-dynamic :
      {test : HeaderField → Bool} {j : ℕ} (f : Found test 1 t.entries j)
      → r.index ≡ j + 61
      → f.entry.name ≡ n
      → (r.value_match ≡ true → f.entry.value ≡ v)
      → Located t n v r
  Located-dynamic {j} f e hn hv =
      let place : r.index ≡ suc f.at + 61 = omega (arith, f.counted) in
      record {
        entry = f.entry;
        looked_up = rw place (lookup_dynamic t f.at f.there);
        named = hn;
        valued = hv;
        positive = omega arith;
        bounded = omega (arith, get_elem?-lt t.entries f.at f.there);
      }
