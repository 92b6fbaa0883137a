-- ===== src/Hpack/Table/Search.antt =====
-- `Search` and `Lookup` of pkg/hpack/table.go agree: what the one finds is at that index of the other.
pub mod Places
use gtest.Common.{
  ℕ, suc, ◌+◌, ◌-◌, ◌≤◌, ◌<◌, ◌≡◌, refl, Bool, true, false, List, [], ◌∷◌, Option, none, some,
  arith, ltb, Bytes, bytes_eq_iff, length, get_elem?, get_elem?-lt, All, ok, pos, Bool-cases,
  Option-cases, inl, inr,
}
use gtest.Hpack.Static.{HeaderField, static_table}
use gtest.Hpack.Table.{
  DynamicTable, Match, get, has_field, has_name, find_from, name_only, no_match, search_dynamic,
  lookup, search,
}
use gtest.Hpack.Table.Search.Places.{
  find_from-some, find_from-none, has_name-eq, has_field-eq, Located, Located-static,
  Located-dynamic,
}

-- What each of the two searches answers, by what its loops found.
search_static_full :
    (t : DynamicTable) (n v : Bytes) {j : ℕ}
    → find_from (has_field n v) 1 static_table ≡ some j
    → search t n v ≡ record { index = j; name_match = true; value_match = true }
unfolding search
search_static_full t n v e = rw e

abbrev Missed : DynamicTable → Bytes → Bytes → Type 0
Missed t n v = find_from (has_field n v) 1 static_table ≡ none

search_dynamic_full :
    (t : DynamicTable) (n v : Bytes) {j : ℕ}
    → Missed t n v
    → find_from (has_field n v) 1 t.entries ≡ some j
    → search t n v ≡ record { index = j + 61; name_match = true; value_match = true }
unfolding search search_dynamic
search_dynamic_full t n v e f = rw (e, search_dynamic, f)

search_dynamic_name :
    (t : DynamicTable) (n v : Bytes) {j : ℕ}
    → Missed t n v
    → find_from (has_field n v) 1 t.entries ≡ none
    → find_from (has_name n) 1 t.entries ≡ some j
    → search t n v ≡ record { index = j + 61; name_match = true; value_match = false }
unfolding search search_dynamic
search_dynamic_name t n v e f g = rw (e, search_dynamic, f, g)

search_static_name :
    (t : DynamicTable) (n v : Bytes)
    → Missed t n v
    → find_from (has_field n v) 1 t.entries ≡ none
    → find_from (has_name n) 1 t.entries ≡ none
    → search t n v ≡ name_only no_match (find_from (has_name n) 1 static_table)
unfolding search search_dynamic
search_static_name t n v e f g = rw (e, search_dynamic, f, g)

-- No entry of either table passes the test.
abbrev pub Nowhere : DynamicTable → (HeaderField → Bool) → Type 0
Nowhere t test = All (λ hf. test hf ≡ false) static_table × All (λ hf. test hf ≡ false) t.entries

-- All that an answer `r` for (n, v) says.
pub record Answers (t : DynamicTable) (n v : Bytes) (r : Match) : Type 0 where
  pub found : r.name_match ≡ true → Located t n v r
  pub full_named : r.value_match ≡ true → r.name_match ≡ true
  pub no_field : r.value_match ≡ false → Nowhere t (has_field n v)
  pub no_name : r.name_match ≡ false → Nowhere t (has_name n)

module _ (t : DynamicTable) (n v : Bytes) where
  Answers-full :
      (j : ℕ)
      → Located t n v (record { index = j; name_match = true; value_match = true })
      → Answers t n v (record { index = j; name_match = true; value_match = true })
  Answers-full j l = record {
    found = λ _. l;
    full_named = λ _. refl;
    no_field = λ e. cc;
    no_name = λ e. cc;
  }

  Answers-name :
      (j : ℕ)
      → Nowhere t (has_field n v)
      → Located t n v (record { index = j; name_match = true; value_match = false })
      → Answers t n v (record { index = j; name_match = true; value_match = false })
  Answers-name j w l = record {
    found = λ _. l;
    full_named = λ _. refl;
    no_field = λ _. w;
    no_name = λ e. cc;
  }

  Answers-static_name :
      Missed t n v
      → find_from (has_field n v) 1 t.entries ≡ none
      → find_from (has_name n) 1 t.entries ≡ none
      → Answers t n v (search t n v)
  Answers-static_name e f g =
      let nowhere : Nowhere t (has_field n v) =
        (find_from-none _ 1 static_table e, find_from-none _ 1 t.entries f) in
      elim (Option-cases (find_from (has_name n) 1 static_table)) [
        | inl h ↦
            rw (search_static_name t n v e f g, h)
              (record {
                found = λ x. cc;
                full_named = λ x. cc;
                no_field = λ _. nowhere;
                no_name = λ _. (find_from-none _ 1 static_table h, find_from-none _ 1 t.entries g);
              })
        | inr (j, h) ↦
            let p = find_from-some (has_name n) 1 static_table h in
            rw (search_static_name t n v e f g, h)
              (Answers-name j nowhere
                (Located-static t n v _ p (has_name-eq n p.entry p.passes) (λ x. cc)))
      ]

  Answers-dynamic :
      Missed t n v
      → (o : Option ℕ) → find_from (has_field n v) 1 t.entries ≡ o
      → Answers t n v (search t n v)
  Answers-dynamic e (some j) f =
      let p = find_from-some (has_field n v) 1 t.entries f in
      let (hn, hv) = has_field-eq n v p.entry p.passes in
      rw (search_dynamic_full t n v e f)
        (Answers-full (j + 61) (Located-dynamic t n v _ p refl hn (λ _. hv)))
  Answers-dynamic e none f = elim (Option-cases (find_from (has_name n) 1 t.entries)) [
    | inl g ↦ Answers-static_name e f g
    | inr (j, g) ↦
        let p = find_from-some (has_name n) 1 t.entries g in
        rw (search_dynamic_name t n v e f g) (
          Answers-name (j + 61) (find_from-none _ 1 static_table e, find_from-none _ 1 t.entries f)
            (Located-dynamic t n v _ p refl (has_name-eq n p.entry p.passes) (λ x. cc)))
  ]

  -- What `Search` answers is true: a match has its entry at that index of `Lookup`, with the
  -- name and, for a full match, the value, and where it reports no match there is none in either
  -- table.
  pub search-Answers : Answers t n v (search t n v)
  search-Answers = elim (Option-cases (find_from (has_field n v) 1 static_table)) [
    | inl e ↦ Answers-dynamic e _ refl
    | inr (j, e) ↦
        let p = find_from-some (has_field n v) 1 static_table e in
        let (hn, hv) = has_field-eq n v p.entry p.passes in
        rw (search_static_full t n v e) (Answers-full j (Located-static t n v _ p hn (λ _. hv)))
  ]
