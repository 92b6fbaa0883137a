-- ===== src/Http2/Stream/Manager.antt =====
-- The streams of a connection by their identifiers (`StreamManager` of pkg/http2/stream.go).
use gtest.Common.{
  ℕ, ◌≡◌, refl, sym, ◌∙◌, [], ◌∷◌, Option, none, some, ◌==◌, ==_iff, if◌then◌else◌, Bytes,
  Bool-cases, Option-cases, inl, inr, arith,
}
use gtest.Common.Maps.{
  lookup, insert, lookup-insert, lookup-delete, insert-IsMap, delete-IsMap, IsMap, number_key,
}
use gtest.Http2.Stream.{
  Stream, StreamManager, new_stream, create, get, get_or_create, remove, modify,
}

get-insert :
    (m : StreamManager) (i j : ℕ) (s : Stream)
    → get (insert i s m) j ≡ (if i == j then some s else get m j)
unfolding get
get-insert m i j s = lookup-insert i j s m

pub get_or_create_fresh :
    (m : StreamManager) (i : ℕ) (n : Bytes)
    → get m i ≡ none
    → get_or_create m i n ≡ (insert i (new_stream i n) m, new_stream i n)
unfolding get_or_create create get
get_or_create_fresh m i n e = rw e

get_or_create_found :
    (m : StreamManager) (i : ℕ) (n : Bytes) {s : Stream}
    → get m i ≡ some s
    → get_or_create m i n ≡ (m, s)
unfolding get_or_create get
get_or_create_found m i n e = rw e

at_key :
    (m : StreamManager) (i j : ℕ) {s : Stream}
    → get m i ≡ some s
    → get m j ≡ (if i == j then some s else get m j)
at_key m i j e = elim (Bool-cases (i == j)) [
  | inl same ↦ let k : i ≡ j = (==_iff i j).0 same in rw (same, ← k) e
  | inr other ↦ rw other
]

-- `GetOrCreate` answers the stream that `Get` finds from then on; other identifiers are untouched,
-- and a second call, under any name, answers the same stream and changes nothing.
pub get-get_or_create :
    (m : StreamManager) (i : ℕ) (n n' : Bytes) (j : ℕ)
    → (get (get_or_create m i n).0 j ≡ (if i == j then some (get_or_create m i n).1 else get m j))
      × (get_or_create (get_or_create m i n).0 i n' ≡ get_or_create m i n)
get-get_or_create m i n n' j = elim (Option-cases (get m i)) [
  | inl e ↦
      let s = new_stream i n in
      let back : get (insert i s m) i ≡ some s = get-insert m i i s ∙ rw ((==_iff i i).1 refl) in
      rw (get_or_create_fresh m i n e)
        (get-insert m i j s, get_or_create_found (insert i s m) i n' back)
  | inr (s, e) ↦ rw (get_or_create_found m i n e) (at_key m i j e, get_or_create_found m i n' e)
]

-- The map has one entry for an identifier, and the stream there carries that identifier.
pub record IsConsistent (m : StreamManager) : Type 0 where
  pub is_map : IsMap m
  pub ids : (i : ℕ) (s : Stream) → get m i ≡ some s → s.id ≡ i

new_stream-id : (i : ℕ) (n : Bytes) → (new_stream i n).id ≡ i
unfolding new_stream
new_stream-id i n = refl

same_id : {a b : Stream} → some a ≡ some b → b.id ≡ a.id
same_id e = cc

-- On a consistent map, `Create` leaves it consistent, answers the stream that is at the identifier
-- from then on, and touches no other.
pub create-IsConsistent :
    (m : StreamManager) (i : ℕ) (n : Bytes)
    → IsConsistent m
    → IsConsistent (create m i n).0
      × ((j : ℕ) → get (create m i n).0 j ≡ (if i == j then some (create m i n).1 else get m j))
unfolding create
create-IsConsistent m i n h = (
  record {
    is_map = insert-IsMap i (new_stream i n) m h.is_map;
    ids = λ j s e. elim (Bool-cases (i == j)) [
      | inl same ↦
          let k : i ≡ j = (==_iff i j).0 same in
          let found : some (new_stream i n) ≡ some s =
            rw same at (sym (get-insert m i j (new_stream i n)) ∙ e) in
          same_id found ∙ new_stream-id i n ∙ k
      | inr other ↦ h.ids j s (rw other at (sym (get-insert m i j (new_stream i n)) ∙ e))
    ];
  },
  λ j. get-insert m i j (new_stream i n),
)

-- On a consistent map, `Delete` leaves it consistent, takes the identifier away, and touches no
-- other.
pub remove-IsConsistent :
    (m : StreamManager) (i : ℕ)
    → IsConsistent m
    → IsConsistent (remove m i)
      × ((j : ℕ) → get (remove m i) j ≡ (if i == j then none else get m j))
unfolding remove get
remove-IsConsistent m i h = (
  record {
    is_map = delete-IsMap i m h.is_map;
    ids = λ j s e. elim (Bool-cases (i == j)) [
      | inl same ↦ absurd (let gone = lookup-delete i j m in cc)
      | inr other ↦ h.ids j s (rw other at (sym (lookup-delete i j m) ∙ e))
    ];
  },
  λ j. lookup-delete i j m,
)

abbrev pub apply_at : (Stream → Stream) → Option Stream → Option Stream
apply_at f none = none
apply_at f (some s) = some (f s)

-- A change through the stored pointer is seen at its identifier and nowhere else.
pub get-modify :
    (m : StreamManager) (i j : ℕ) (f : Stream → Stream)
    → get (modify m i f) j ≡ (if i == j then apply_at f (get m j) else get m j)
unfolding get modify lookup
get-modify [] i j f = ground arith
get-modify ((k, s) ∷ m) i j f = ground (arith, get-modify m i j f)
