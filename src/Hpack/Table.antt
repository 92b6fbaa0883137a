-- ===== src/Hpack/Table.antt =====
-- pkg/hpack/table.go: the dynamic table and the combined table. `size` and `max_size` are uint32.
pub mod Bounds
pub mod Exact
pub mod Search
use gtest.Common.{
  ℕ, zero, suc, ◌+◌, ◌-◌, ◌%◌, ◌^◌, Bool, true, false, ◌&&◌, List, [], ◌∷◌, Option, none, some, ltb,
  if◌then◌else◌, Bytes, bytes_eq, length, get_elem?, take, Result, ok, err, ℤ, pos, negsuc,
}
use gtest.Hpack.Static.{HeaderField, size, static_table, static_table_size}

pub record DynamicTable : Type 0 where
  pub entries : List HeaderField
  pub total_size : ℕ
  pub max_size : ℕ

abbrev pub new_dynamic_table : ℕ → DynamicTable
new_dynamic_table m = record { entries = []; total_size = 0; max_size = m }

-- `dt.size -= s` in uint32.
abbrev pub sub_size : ℕ → ℕ → ℕ
sub_size a s = (a + 2 ^ 32 - s) % 2 ^ 32

-- One round of the loop of `evict`, at `lastIdx`: the last entry goes, with its size.
unfoldable pub drop_last : DynamicTable → DynamicTable
drop_last t =
    let last_idx = length t.entries - 1 in
    elim (get_elem? t.entries last_idx) [
      | none ↦ t
      | some hf ↦ record t {
        entries = take last_idx t.entries;
        total_size = sub_size t.total_size (size hf);
      }
    ]

-- The loop of `evict`. The rounds are at most the entries.
unfoldable pub evict_loop : ℕ → DynamicTable → DynamicTable
evict_loop zero t = t
evict_loop (suc rounds) t =
    let rest = evict_loop rounds (drop_last t) in
    if ltb t.max_size t.total_size && ltb 0 (length t.entries) then rest else t

unfoldable pub evict : DynamicTable → DynamicTable
evict t = evict_loop (length t.entries) t

unfoldable pub set_max_size : DynamicTable → ℕ → DynamicTable
set_max_size t m = evict (record t { max_size = m })

unfoldable pub add : DynamicTable → HeaderField → DynamicTable
add t hf =
    evict (record t { entries = hf ∷ t.entries; total_size = (t.total_size + size hf) % 2 ^ 32 })

-- `Get`, by a 1-based index.
unfoldable pub get : DynamicTable → ℕ → Option HeaderField
get t zero = none
get t (suc i) = get_elem? t.entries i

-- What the searches return: (index, nameMatch, valueMatch).
pub record Match : Type 0 where
  pub index : ℕ
  pub name_match : Bool
  pub value_match : Bool

abbrev pub no_match : Match
no_match = record { index = 0; name_match = false; value_match = false }

-- The tests of the two loops: on name and value, and on the name.
abbrev pub has_field : Bytes → Bytes → HeaderField → Bool
has_field n v hf = bytes_eq hf.name n && bytes_eq hf.value v

abbrev pub has_name : Bytes → HeaderField → Bool
has_name n hf = bytes_eq hf.name n

-- A loop over entries that returns the first index, counted from `i`, at which the test passes.
unfoldable pub find_from : (HeaderField → Bool) → ℕ → List HeaderField → Option ℕ
find_from test i [] = none
find_from test i (hf ∷ hs) = if test hf then some i else find_from test (i + 1) hs

abbrev named_or {ℓ} : {A : Type ℓ} → A → (ℕ → A) → Option ℕ → A
named_or d f none = d
named_or d f (some i) = f i

abbrev pub name_only : Match → Option ℕ → Match
name_only d = named_or d (λ i. record { index = i; name_match = true; value_match = false })

abbrev pub full_match : Match → Option ℕ → Match
full_match d = named_or d (λ i. record { index = i; name_match = true; value_match = true })

unfoldable pub search_dynamic : DynamicTable → Bytes → Bytes → Match
search_dynamic t n v =
    full_match (name_only no_match (find_from (has_name n) 1 t.entries))
      (find_from (has_field n v) 1 t.entries)

pub data LookupError : Type 0 where
  bad_index not_found : LookupError

abbrev pub found_or : LookupError → Option HeaderField → Result LookupError HeaderField
found_or e none = err e
found_or e (some hf) = ok hf

-- `Table.Lookup`. The static table has an entry at each index up to its size.
unfoldable pub lookup : DynamicTable → ℤ → Result LookupError HeaderField
lookup t (negsuc i) = err bad_index
lookup t (pos zero) = err bad_index
lookup t (pos (suc i)) =
    if ltb i static_table_size
    then found_or bad_index (get_elem? static_table i)
    else found_or not_found (get t (suc i - static_table_size))

-- `Table.Search`: a full match in the static table, any match in the dynamic one, a static name.
unfoldable pub search : DynamicTable → Bytes → Bytes → Match
search t n v =
    let static_name = name_only no_match (find_from (has_name n) 1 static_table) in
    let dynamic = search_dynamic t n v in
    let later =
      if dynamic.name_match
      then record dynamic { index = dynamic.index + static_table_size }
      else static_name in
    full_match later (find_from (has_field n v) 1 static_table)
