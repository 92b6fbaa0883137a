-- ===== src/Hpack/Table/Exact.antt =====
-- The dynamic table while no uint32 size wraps: the counter is the exact sum, and what is kept after
-- `Add` and `SetMaxSize` (pkg/hpack/table.go) is the longest fitting run of newest entries.
use gtest.Common.{
  ℕ, ◌+◌, ◌-◌, ◌*◌, ◌%◌, ◌^◌, ◌≤◌, ◌<◌, ◌≡◌, refl, ap, List, [], ◌∷◌, arith, length, All,
}
use gtest.Hpack.Static.{HeaderField, size}
use gtest.Hpack.Table.{DynamicTable, new_dynamic_table, set_max_size, add}
use gtest.Hpack.Table.Bounds.{
  total, IsCoherent, IsValid, add-IsValid, set_max_size-IsValid, evict-entries, fitting,
}

abbrev pub IsWide : HeaderField → Type 0
IsWide hf = 32 ≤ size hf

pub record IsExact (t : DynamicTable) : Type 0 where
  pub exact : t.total_size ≡ total t.entries
  pub within : t.total_size ≤ t.max_size
  pub limit : t.max_size < 2 ^ 32
  pub wide : All IsWide t.entries

-- A field whose size, added to a full table, does not wrap.
abbrev pub HasRoom : DynamicTable → HeaderField → Type 0
HasRoom t hf = length hf.name + length hf.value + 32 + t.max_size < 2 ^ 32

pub size-HasRoom :
    (t : DynamicTable) (hf : HeaderField)
    → HasRoom t hf
    → size hf ≡ length hf.name + length hf.value + 32
unfolding size
size-HasRoom t hf h = omega arith

total-fitting-le : (m : ℕ) (hs : List HeaderField) → total (fitting m hs) ≤ m
unfolding fitting
total-fitting-le m [] = omega arith
total-fitting-le m (hf ∷ hs) = ground (arith, total-fitting-le (m - size hf) hs)

fitting-IsWide : (m : ℕ) (hs : List HeaderField) → All IsWide hs → All IsWide (fitting m hs)
unfolding fitting
fitting-IsWide m [] h = tt
fitting-IsWide m (hf ∷ hs) h = ground (arith, fitting-IsWide (m - size hf) hs h.1)

pub new_dynamic_table-IsExact : (m : ℕ) → m < 2 ^ 32 → IsExact (new_dynamic_table m)
new_dynamic_table-IsExact m h = record { exact = refl; within = omega arith; limit = h; wide = tt }

IsExact-of_entries :
    (t : DynamicTable) (m : ℕ) (hs : List HeaderField)
    → IsValid t × (t.max_size ≡ m)
    → t.entries ≡ fitting m hs
    → m < 2 ^ 32
    → All IsWide hs
    → IsExact t
IsExact-of_entries t m hs (v, e) k h w =
    let same = ap total k in
    let fits = total-fitting-le m hs in
    record {
      exact = omega (arith, v.coherent);
      within = v.within;
      limit = omega arith;
      wide = rw k (fitting-IsWide m hs w);
    }

-- On an exact table, and a field whose size with the table's limit fits uint32, `Add` puts the
-- field in front and keeps the longest run of newest entries that fits the limit; the table is
-- exact again.
pub add-entries :
    (t : DynamicTable) (hf : HeaderField)
    → IsExact t
    → HasRoom t hf
    → IsExact (add t hf) × ((add t hf).entries ≡ fitting t.max_size (hf ∷ t.entries))
unfolding add
add-entries t hf v room =
    let sized = size-HasRoom t hf room in
    let c : IsCoherent t = omega (arith, v.exact, v.within, v.limit) in
    let grown : DynamicTable = record t {
      entries = hf ∷ t.entries;
      total_size = (t.total_size + size hf) % 2 ^ 32;
    } in
    let kept = evict-entries grown (omega arith) (omega (arith, v.exact, v.within)) in
    (
      IsExact-of_entries _ t.max_size (hf ∷ t.entries) (add-IsValid t hf c) kept v.limit
          (omega arith, v.wide),
      kept,
    )

-- On an exact table and a uint32 limit, `SetMaxSize` keeps the longest run of newest entries that
-- fits the new limit, and the table is exact again.
pub set_max_size-entries :
    (t : DynamicTable) (m : ℕ)
    → IsExact t
    → m < 2 ^ 32
    → IsExact (set_max_size t m) × ((set_max_size t m).entries ≡ fitting m t.entries)
unfolding set_max_size
set_max_size-entries t m v h =
    let c : IsCoherent t = omega (arith, v.exact, v.within, v.limit) in
    let kept = evict-entries _ c (omega (arith, v.exact, v.within, v.limit)) in
    (IsExact-of_entries _ m t.entries (set_max_size-IsValid t m c) kept h v.wide, kept)

All-IsWide-length : (hs : List HeaderField) → All IsWide hs → 32 * length hs ≤ total hs
All-IsWide-length [] h = omega arith
All-IsWide-length (hf ∷ hs) h = omega (arith, All-IsWide-length hs h.1)

-- So the table's entries are fewer than 2 ^ 27.
pub length-IsExact : (t : DynamicTable) → IsExact t → length t.entries < 2 ^ 27
length-IsExact t v = omega (arith, All-IsWide-length t.entries v.wide, v.exact, v.within, v.limit)
