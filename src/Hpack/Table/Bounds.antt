-- ===== src/Hpack/Table/Bounds.antt =====
-- The size accounting and the eviction of the dynamic table (`DynamicTable` of pkg/hpack/table.go).
use gtest.Common.{
  ℕ, zero, suc, ◌+◌, ◌-◌, ◌%◌, ◌^◌, ◌≤◌, ◌<◌, ◌≡◌, refl, sym, ap, ◌∙◌, inl, inr, List, [], ◌∷◌,
  some, arith, ltb, leb, if◌then◌else◌, Bool-cases, length, get_elem?, take,
}
use gtest.Hpack.Static.{HeaderField, size}
use gtest.Hpack.Table.{DynamicTable, drop_last, evict_loop, evict, set_max_size, add}

-- The sizes of all entries, with no wrap-around.
abbrev pub total : List HeaderField → ℕ
total [] = 0
total (hf ∷ hs) = size hf + total hs

pub size-lt : (hf : HeaderField) → size hf < 2 ^ 32
unfolding size
size-lt hf = omega arith

last_entry :
    (x : HeaderField) (xs : List HeaderField)
    → (hf : HeaderField) × (get_elem? (x ∷ xs) (length xs) ≡ some hf)
      × (total (take (length xs) (x ∷ xs)) + size hf ≡ total (x ∷ xs))
last_entry x [] = (x, refl, omega arith)
last_entry x (y ∷ ys) = let (hf, e, s) = last_entry y ys in (hf, e, omega arith)

length_front :
    (x : HeaderField) (xs : List HeaderField) → length (take (length xs) (x ∷ xs)) ≡ length xs
length_front x [] = refl
length_front x (y ∷ ys) = ap suc (length_front y ys)

abbrev table : List HeaderField → ℕ → ℕ → DynamicTable
table hs s m = record { entries = hs; total_size = s; max_size = m }

drop_last-cons :
    (s m : ℕ) (x : HeaderField) (xs : List HeaderField) {hf : HeaderField}
    → get_elem? (x ∷ xs) (length xs) ≡ some hf
    → drop_last (table (x ∷ xs) s m)
      ≡ table (take (length xs) (x ∷ xs)) ((s + 2 ^ 32 - size hf) % 2 ^ 32) m
unfolding drop_last
drop_last-cons s m x xs h =
    let one : suc (length xs) - 1 ≡ length xs = omega arith in rw (one, h, drop_last) (rw one)

-- The size counter is the sum of the entries' sizes modulo 2 ^ 32.
abbrev pub IsCoherent : DynamicTable → Type 0
IsCoherent t = t.total_size ≡ total t.entries % 2 ^ 32

evict_loop_fit :
    (r s m : ℕ) (hs : List HeaderField) → s ≤ m → evict_loop r (table hs s m) ≡ table hs s m
unfolding evict_loop
evict_loop_fit zero s m hs h = refl
evict_loop_fit (suc r) s m hs h = ground arith

evict_loop_drop :
    (r s m : ℕ) (x : HeaderField) (xs : List HeaderField)
    → m < s
    → evict_loop (suc r) (table (x ∷ xs) s m) ≡ evict_loop r (drop_last (table (x ∷ xs) s m))
unfolding evict_loop
evict_loop_drop r s m x xs h = ground arith

-- What holds of a table that fits, and passes from a table to the one with its last entry more,
-- holds of what the loop makes of any coherent table. The entries bound the rounds.
module _ {κ} (m : ℕ) (P : List HeaderField → DynamicTable → Type κ) where
  abbrev KeepsFitting : Type κ
  KeepsFitting =
      (hs : List HeaderField) (s : ℕ) → s ≤ m → s ≡ total hs % 2 ^ 32 → P hs (table hs s m)

  abbrev KeepsDropped : Type κ
  KeepsDropped =
      (x : HeaderField) (xs : List HeaderField) (t : DynamicTable)
      → m < total (x ∷ xs) % 2 ^ 32
      → P (take (length xs) (x ∷ xs)) t
      → P (x ∷ xs) t

  evict_loop_rule :
      KeepsFitting
      → KeepsDropped
      → (r s : ℕ) (hs : List HeaderField) → length hs ≤ r
      → s ≡ total hs % 2 ^ 32
      → P hs (evict_loop r (table hs s m))
  evict_loop_rule stop drop r s [] hr hs =
      rw (evict_loop_fit r s m [] (omega arith)) (stop [] s (omega arith) hs)
  evict_loop_rule stop drop zero s (x ∷ xs) hr hs = absurd (omega arith)
  evict_loop_rule stop drop (suc r) s (x ∷ xs) hr hs = elim (Bool-cases (ltb m s)) [
    | inl big ↦
        let (hf, e, sum) = last_entry x xs in
        rw (evict_loop_drop r s m x xs (ground arith), drop_last-cons s m x xs e)
          (drop x xs _ (ground arith) (
            evict_loop_rule stop drop r _ (take (length xs) (x ∷ xs))
              (omega (arith, length_front x xs)) (omega (arith, size-lt hf, sum))))
    | inr small ↦
        rw (evict_loop_fit (suc r) s m (x ∷ xs) (ground arith)) (stop (x ∷ xs) s (ground arith) hs)
  ]

-- A table within its limit, with a coherent counter.
pub record IsValid (t : DynamicTable) : Type 0 where
  pub coherent : IsCoherent t
  pub within : t.total_size ≤ t.max_size

pub evict-IsValid : (t : DynamicTable) → IsCoherent t → IsValid (evict t)
unfolding evict
evict-IsValid t c =
    evict_loop_rule t.max_size (λ hs. IsValid) (λ hs s h e. record { coherent = e; within = h })
      (λ x xs t' h v. v) (length t.entries) t.total_size t.entries (omega arith) c

pub evict-max_size : (t : DynamicTable) → IsCoherent t → (evict t).max_size ≡ t.max_size
unfolding evict
evict-max_size t c =
    evict_loop_rule t.max_size (λ hs t'. t'.max_size ≡ t.max_size) (λ hs s h e. refl)
      (λ x xs t' h v. v) (length t.entries) t.total_size t.entries (omega arith) c

-- The longest run of newest entries whose sizes fit into `m` together.
unfoldable pub fitting : ℕ → List HeaderField → List HeaderField
fitting m [] = []
fitting m (hf ∷ hs) =
    let rest = fitting (m - size hf) hs in if leb (size hf) m then hf ∷ rest else []

fitting_all : (m : ℕ) (hs : List HeaderField) → total hs ≤ m → fitting m hs ≡ hs
unfolding fitting
fitting_all m [] h = refl
fitting_all m (hf ∷ hs) h = ground (arith, fitting_all (m - size hf) hs)

fitting_front :
    (m : ℕ) (x : HeaderField) (xs : List HeaderField)
    → m < total (x ∷ xs)
    → fitting m (take (length xs) (x ∷ xs)) ≡ fitting m (x ∷ xs)
unfolding fitting
fitting_front m x [] h = ground arith
fitting_front m x (y ∷ ys) h = ground (arith, fitting_front (m - size x) y ys)

pub evict-entries :
    (t : DynamicTable)
    → IsCoherent t
    → total t.entries < 2 ^ 32
    → (evict t).entries ≡ fitting t.max_size t.entries
unfolding evict
evict-entries t c =
    evict_loop_rule t.max_size (λ hs t'. total hs < 2 ^ 32 → t'.entries ≡ fitting t.max_size hs)
      (λ hs s h e b. sym (fitting_all t.max_size hs (omega arith)))
      (λ x xs t' h ih b.
        ih (omega (arith, last_entry x xs)) ∙ fitting_front t.max_size x xs (omega arith))
      (length t.entries) t.total_size t.entries (omega arith) c

-- Adding any field to any table with a coherent counter leaves the counter coherent and within the
-- limit, and the limit as it was.
pub add-IsValid :
    (t : DynamicTable) (hf : HeaderField)
    → IsCoherent t
    → IsValid (add t hf) × ((add t hf).max_size ≡ t.max_size)
unfolding add
add-IsValid t hf c =
    let c' : (t.total_size + size hf) % 2 ^ 32 ≡ (size hf + total t.entries) % 2 ^ 32 =
      omega arith in
    (evict-IsValid _ c', evict-max_size _ c')

-- On any table with a coherent counter, `SetMaxSize` sets the limit and leaves the counter
-- coherent and within it.
pub set_max_size-IsValid :
    (t : DynamicTable) (m : ℕ)
    → IsCoherent t
    → IsValid (set_max_size t m) × ((set_max_size t m).max_size ≡ m)
unfolding set_max_size
set_max_size-IsValid t m c = (evict-IsValid _ c, evict-max_size _ c)
