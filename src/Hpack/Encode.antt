-- ===== src/Hpack/Encode.antt =====
-- pkg/hpack/encode.go: the encoder. Its steps fail only at a prefix length outside 1 to 8, which none
-- of them passes, so what an encoder holds after such an error is not modelled.
pub mod Explicit
pub mod Losses
use gtest.Common.{
  ℕ, ◌%◌, ◌^◌, Bool, true, false, ◌&&◌, List, [], ◌∷◌, ◌++◌, if◌then◌else◌, Bytes, Result, ok, err,
  ◌>>=◌, ℤ, pos, negsuc, of_int,
}
use gtest.Hpack.Static.{HeaderField, field}
use gtest.Hpack.Table.{
  DynamicTable, Match, LookupError, new_dynamic_table, add, set_max_size, lookup, search,
}
use gtest.Hpack.Integer.{IntegerError, encode_integer}
use gtest.Hpack.Text.{encode_string}

pub record Encoder : Type 0 where
  pub table : DynamicTable
  pub buf : Bytes

abbrev pub new_encoder : ℕ → Encoder
new_encoder m = record { table = new_dynamic_table m; buf = [] }

abbrev pub Step : Type 0
Step = Result IntegerError Encoder

abbrev pub write_byte : Encoder → ℕ → Encoder
write_byte e b = record e { buf = e.buf ++ (b ∷ []) }

-- The two primitives at the encoder's buffer.
abbrev pub write_integer : Encoder → ℕ → ℕ → ℕ → Step
write_integer e n prefix v = encode_integer e.buf n prefix v >>= λ b. ok (record e { buf = b })

abbrev pub write_string : Encoder → Bytes → Bool → Step
write_string e s huffman = encode_string e.buf s huffman >>= λ b. ok (record e { buf = b })

unfoldable pub encode_indexed : Encoder → ℤ → Step
encode_indexed e i = write_integer e 7 0x80 (of_int i)

-- Adds a field under the name at an index, if there is one.
abbrev pub add_found : Encoder → Bytes → Result LookupError HeaderField → Encoder
add_found e v (ok hf) = record e { table = add e.table (field hf.name v) }
add_found e v (err _) = e

abbrev pub add_named : Encoder → ℤ → Bytes → Encoder
add_named e i v = add_found e v (lookup e.table i)

-- `if nameIndex > 0`
abbrev pub add_positive : Encoder → ℤ → Bytes → Encoder
add_positive e (pos ℕ.zero) v = e
add_positive e (pos (ℕ.suc i)) v = add_named e (pos (ℕ.suc i)) v
add_positive e (negsuc i) v = e

unfoldable pub encode_literal_with_indexing : Encoder → ℤ → Bytes → Step
encode_literal_with_indexing e i v = do
  e1 ← write_integer e 6 0x40 (of_int i)
  e2 ← write_string e1 v false
  ok (add_positive e2 i v)

unfoldable pub encode_literal_with_indexing_new_name : Encoder → Bytes → Bytes → Step
encode_literal_with_indexing_new_name e n v = do
  e1 ← write_string (write_byte e 0x40) n false
  e2 ← write_string e1 v false
  ok (record e2 { table = add e2.table (field n v) })

unfoldable pub encode_literal_never_indexed : Encoder → ℤ → Bytes → Step
encode_literal_never_indexed e i v = do
  e1 ← write_integer e 4 0x10 (of_int i)
  write_string e1 v false

unfoldable pub encode_literal_never_indexed_new_name : Encoder → Bytes → Bytes → Step
encode_literal_never_indexed_new_name e n v = do
  e1 ← write_string (write_byte e 0x10) n false
  write_string e1 v false

-- `encodeField` on the answer of `Search`.
unfoldable pub encode_match : Encoder → HeaderField → Match → Step
encode_match e hf m =
    if m.value_match
    then encode_indexed e (pos m.index)
    else if m.name_match
    then (if hf.sensitive
        then encode_literal_never_indexed e (pos m.index) hf.value
        else encode_literal_with_indexing e (pos m.index) hf.value)
    else if hf.sensitive
    then encode_literal_never_indexed_new_name e hf.name hf.value
    else encode_literal_with_indexing_new_name e hf.name hf.value

unfoldable pub encode_field : Encoder → HeaderField → Step
unfolding encode_match
encode_field e hf = encode_match e hf (search e.table hf.name hf.value)

unfoldable pub encode_fields : Encoder → List HeaderField → Step
encode_fields e [] = ok e
encode_fields e (hf ∷ hs) = encode_field e hf >>= λ e'. encode_fields e' hs

-- `Encode`: the encoder, whose buffer is the answer.
unfoldable pub encode : Encoder → List HeaderField → Step
encode e hs = encode_fields (record e { buf = [] }) hs

-- `SetMaxDynamicTableSize` at a uint32.
unfoldable pub set_max_dynamic_table_size : Encoder → ℕ → Step
set_max_dynamic_table_size e m = do
  e1 ← write_integer e 5 0x20 m
  ok (record e1 { table = set_max_size e1.table m })
