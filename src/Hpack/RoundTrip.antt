-- ===== src/Hpack/RoundTrip.antt =====
-- `Decode` on what `Encode` wrote (pkg/hpack/encode.go, pkg/hpack/decode.go): the fields come back,
-- and the two dynamic tables stay equal.
pub mod Fields
use gtest.Common.{
  ℕ, zero, suc, ◌*◌, ◌^◌, ◌≤◌, ◌<◌, ◌≡◌, refl, sym, ap, ◌∙◌, Bool, true, false, List, [], ◌∷◌, ◌++◌,
  map, Bool-cases, inl, inr, append_assoc, append-nil, Bytes, length, length-append, ok, pos, arith,
  All, ◌>>=◌,
}
use gtest.Hpack.Static.{HeaderField, field}
use gtest.Hpack.Table.{DynamicTable, Match, lookup, add, search}
use gtest.Hpack.Table.Bounds.{add-IsValid}
use gtest.Hpack.Table.Exact.{IsExact, HasRoom, add-entries, length-IsExact}
use gtest.Hpack.Integer.Encoding.{integer, encode_integer-integer}
use gtest.Hpack.Text.{text, encode_string-text}
use gtest.Hpack.Encode.{
  Encoder, write_byte, write_integer, write_string, add_positive, encode_indexed,
  encode_literal_with_indexing, encode_literal_with_indexing_new_name, encode_literal_never_indexed,
  encode_literal_never_indexed_new_name, encode_match, encode_field, encode_fields, encode,
}
use gtest.Hpack.Decode.{decode_one, decode_loop, decode}
use gtest.Hpack.Decode.Ends.{decode_loop_decoded}
use gtest.Hpack.Decode.Fields.{
  yields, decode_one-indexed, decode_one_named, decode_one_new, decode_one_never_named,
  decode_one_never_new,
}
use gtest.Hpack.RoundTrip.Fields.{Trip, Trip-field}

-- The name and the value.
abbrev pub pair : HeaderField → Bytes × Bytes
pair hf = (hf.name, hf.value)

-- All fields sent and read.
record Trips (e : Encoder) (hs : List HeaderField) : Type 0 where
  chunks : Bytes
  table : DynamicTable
  got : List HeaderField
  encodes : encode_fields e hs ≡ ok (record { table = table; buf = e.buf ++ chunks })
  decodes :
      (fuel : ℕ) (before : List HeaderField)
      → length chunks ≤ fuel
      → decode_loop fuel e.table chunks before ≡ (ok (before ++ got), table)
  same : map pair got ≡ map pair hs
  exact : IsExact table

-- The loop of the decoder takes one field off.
one_round :
    (t t' : DynamicTable) (hf : HeaderField) (c cs : Bytes) (fuel : ℕ) (before : List HeaderField)
    → 1 ≤ length c
    → length (c ++ cs) ≤ fuel
    → ((b : ℕ) (more rest : Bytes) → c ++ rest ≡ b ∷ more → decode_one t b more ≡ yields hf rest t')
    → (left : ℕ) × (length cs ≤ left)
      × (decode_loop fuel t (c ++ cs) before ≡ decode_loop left t' cs (before ++ (hf ∷ [])))
one_round t t' hf [] cs fuel before h g d = absurd (omega arith)
one_round t t' hf (b ∷ more) cs zero before h g d = absurd (omega arith)
one_round t t' hf (b ∷ more) cs (suc fuel) before h g d = (
  fuel,
  omega (arith, length-append more cs),
  decode_loop_decoded fuel t b (more ++ cs) before (d b (more ++ cs) cs refl),
)

Trips-cons :
    (e : Encoder) (hf : HeaderField) (hs : List HeaderField)
    (t : Trip e hf (search e.table hf.name hf.value))
    → Trips (record { table = t.table; buf = e.buf ++ t.chunk }) hs
    → Trips e (hf ∷ hs)
unfolding encode_fields encode_field
Trips-cons e hf hs t r = record {
  chunks = t.chunk ++ r.chunks;
  table = r.table;
  got = t.header ∷ r.got;
  encodes = rw (t.encodes, r.encodes, append_assoc);
  decodes = λ fuel before h.
      let (left, enough, round) =
        one_round e.table t.table t.header t.chunk r.chunks fuel before t.nonempty h t.decodes in
      round ∙ r.decodes left (before ++ (t.header ∷ [])) enough ∙ rw append_assoc;
  same = cc (t.same_name, t.same_value, r.same);
  exact = r.exact;
}

rooms_kept :
    (t t' : DynamicTable) (hs : List HeaderField)
    → t'.max_size ≡ t.max_size
    → All (HasRoom t) hs
    → All (HasRoom t') hs
rooms_kept t t' [] e h = tt
rooms_kept t t' (hf ∷ hs) e h = (omega arith, rooms_kept t t' hs e h.1)

trips :
    (e : Encoder) (hs : List HeaderField) → IsExact e.table → All (HasRoom e.table) hs → Trips e hs
trips e [] valid room = record {
  chunks = [];
  table = e.table;
  got = [];
  encodes = unfold encode_fields in rw append-nil;
  decodes = λ fuel before h. unfold decode_loop in rw append-nil;
  same = refl;
  exact = valid;
}
trips e (hf ∷ hs) valid (room, rooms) =
    let t = Trip-field e hf valid room in
    Trips-cons e hf hs t (
      trips (record { table = t.table; buf = e.buf ++ t.chunk }) hs t.exact
        (rooms_kept e.table t.table hs t.limit rooms))

-- An encoder with an exact table, and fields whose sizes, each with the table's limit, fit uint32:
-- `Encode` does not fail, and a decoder with the same table reads the fields back, the same names
-- and values in the same order, and ends with the encoder's table, which is again exact.
pub decode-encode :
    (e : Encoder) (hs : List HeaderField)
    → IsExact e.table
    → All (HasRoom e.table) hs
    → (e' : Encoder) × (got : List HeaderField) × (encode e hs ≡ ok e')
      × (decode e.table e'.buf ≡ (ok got, e'.table))
      × (map pair got ≡ map pair hs)
      × IsExact e'.table
unfolding encode decode
decode-encode e hs valid room =
    let r = trips (record e { buf = [] }) hs valid room in
    (
      record { table = r.table; buf = r.chunks },
      r.got,
      r.encodes,
      r.decodes (length r.chunks) [] (omega arith),
      r.same,
      r.exact,
    )
