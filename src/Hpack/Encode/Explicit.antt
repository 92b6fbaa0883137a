-- ===== src/Hpack/Encode/Explicit.antt =====
-- `EncodeExplicit` of pkg/hpack/encode.go: header fields from explicit instructions.
use gtest.Common.{
  Bool, List, [], ◌∷◌, if◌then◌else◌, Bytes, codes, bytes_eq, Result, ok, err, ◌>>=◌, ℤ, of_int,
}
use gtest.Hpack.Static.{field}
use gtest.Hpack.Table.{add}
use gtest.Hpack.Integer.{IntegerError}
use gtest.Hpack.Encode.{
  Encoder, Step, write_byte, write_integer, write_string, encode_indexed, add_named,
}

pub data IndexingMode : Type 0 where
  indexing_inc indexing_not indexing_never : IndexingMode

pub record HpackInstruction : Type 0 where
  pub kind : Bytes
  pub index : ℤ
  pub name : Bytes
  pub value : Bytes
  pub indexing_mode : IndexingMode
  pub name_huffman : Bool
  pub value_huffman : Bool

unfoldable pub encode_literal_indexed_name : Encoder → ℤ → Bytes → IndexingMode → Bool → Step
encode_literal_indexed_name e i v indexing_inc huffman = do
  e1 ← write_integer e 6 0x40 (of_int i)
  e2 ← write_string e1 v huffman
  ok (add_named e2 i v)
encode_literal_indexed_name e i v indexing_not huffman = do
  e1 ← write_integer e 4 0x00 (of_int i)
  write_string e1 v huffman
encode_literal_indexed_name e i v indexing_never huffman = do
  e1 ← write_integer e 4 0x10 (of_int i)
  write_string e1 v huffman

unfoldable pub encode_literal_new_name : Encoder → Bytes → Bytes → IndexingMode → Bool → Bool → Step
encode_literal_new_name e n v indexing_inc name_huffman value_huffman = do
  e1 ← write_string (write_byte e 0x40) n name_huffman
  e2 ← write_string e1 v value_huffman
  ok (record e2 { table = add e2.table (field n v) })
encode_literal_new_name e n v indexing_not name_huffman value_huffman = do
  e1 ← write_string (write_byte e 0x00) n name_huffman
  write_string e1 v value_huffman
encode_literal_new_name e n v indexing_never name_huffman value_huffman = do
  e1 ← write_string (write_byte e 0x10) n name_huffman
  write_string e1 v value_huffman

pub data ExplicitError : Type 0 where
  unknown_instruction : ExplicitError
  integer_error : IntegerError → ExplicitError

abbrev lift : Step → Result ExplicitError Encoder
lift (ok e) = ok e
lift (err x) = err (integer_error x)

-- One instruction, by its type.
unfoldable pub encode_instruction : Encoder → HpackInstruction → Result ExplicitError Encoder
encode_instruction e r =
    if bytes_eq r.kind (codes "indexed")
    then lift (encode_indexed e r.index)
    else if bytes_eq r.kind (codes "literal-indexed")
    then lift (encode_literal_indexed_name e r.index r.value r.indexing_mode r.value_huffman)
    else if bytes_eq r.kind (codes "literal-new")
    then lift
        (encode_literal_new_name e r.name r.value r.indexing_mode r.name_huffman r.value_huffman)
    else err unknown_instruction

-- The loop: the answer, and the encoder as the call leaves it.
unfoldable pub encode_instructions :
    Encoder → List HpackInstruction → Result ExplicitError Bytes × Encoder
encode_instructions e [] = (ok e.buf, e)
encode_instructions e (r ∷ rs) = elim (encode_instruction e r) [
  | ok e' ↦ encode_instructions e' rs
  | err x ↦ (err x, e)
]

unfoldable pub encode_explicit :
    Encoder → List HpackInstruction → Result ExplicitError Bytes × Encoder
encode_explicit e rs = encode_instructions (record e { buf = [] }) rs
