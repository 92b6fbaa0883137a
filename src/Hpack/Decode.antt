-- ===== src/Hpack/Decode.antt =====
-- pkg/hpack/decode.go: the decoder, which holds a table only. A reader is the list of bytes unread.
pub mod Ends
pub mod Fields
pub mod Updates
use gtest.Common.{
  ℕ, zero, suc, ◌%◌, ◌^◌, Bool, true, false, not, List, [], ◌∷◌, ◌++◌, ◌==◌, if◌then◌else◌, Bytes,
  length, bit_and, Result, ok, err, ◌>>=◌, to_int,
}
use gtest.Hpack.Static.{HeaderField, field}
use gtest.Hpack.Table.{DynamicTable, LookupError, new_dynamic_table, add, set_max_size, lookup}
use gtest.Hpack.Integer.{IntegerError, Read, decode_integer}
use gtest.Hpack.Text.{TextError, decode_string}

-- `stuck` is no Go value: the loop of `decode` ran out of fuel.
pub data DecodeError : Type 0 where
  integer_error : IntegerError → DecodeError
  text_error : TextError → DecodeError
  lookup_error : LookupError → DecodeError
  zero_index stuck : DecodeError

abbrev pub new_decoder : ℕ → DynamicTable
new_decoder m = new_dynamic_table m

-- A field decoded, the bytes behind it, and the table with it.
pub record Decoded : Type 0 where
  pub header : HeaderField
  pub unread : Bytes
  pub table : DynamicTable

-- An integer, a string or a lookup, and what is done with it. On an error the reader is dropped.
abbrev pub with_integer {ℓ} :
    {B : Type ℓ} → Read IntegerError ℕ → (ℕ → Bytes → Result DecodeError B) → Result DecodeError B
with_integer (ok i, rest) f = f i rest
with_integer (err e, rest) f = err (integer_error e)

abbrev pub with_text {ℓ} :
    {B : Type ℓ}
    → Read TextError Bytes
    → (Bytes → Bytes → Result DecodeError B)
    → Result DecodeError B
with_text (ok s, rest) f = f s rest
with_text (err e, rest) f = err (text_error e)

abbrev pub with_entry {ℓ} :
    {B : Type ℓ}
    → Result LookupError HeaderField
    → (HeaderField → Result DecodeError B)
    → Result DecodeError B
with_entry (ok hf) f = f hf
with_entry (err e) f = err (lookup_error e)

unfoldable pub decode_indexed : DynamicTable → Bytes → Result DecodeError Decoded
decode_indexed t buf = with_integer (decode_integer buf 7) λ i rest.
    if i == 0
    then err zero_index
    else with_entry (lookup t (to_int i))
        λ hf. ok (record { header = hf; unread = rest; table = t })

-- The name of a literal field: in the text for index 0, else in the table.
abbrev pub with_name {ℓ} :
    {B : Type ℓ}
    → DynamicTable
    → ℕ
    → Bytes
    → (Bytes → Bytes → Result DecodeError B)
    → Result DecodeError B
with_name t i rest f =
    if i == 0
    then with_text (decode_string rest) f
    else with_entry (lookup t (to_int i)) (λ hf. f hf.name rest)

-- A literal: an index of n bits, a name, a value.
abbrev pub with_literal {ℓ} :
    {B : Type ℓ}
    → DynamicTable
    → ℕ
    → Bytes
    → (Bytes → Bytes → Bytes → Result DecodeError B)
    → Result DecodeError B
with_literal t n buf f = with_integer (decode_integer buf n) λ i rest.
    with_name t i rest
      λ name rest'. with_text (decode_string rest') λ value rest''. f name value rest''

unfoldable pub decode_literal_with_indexing : DynamicTable → Bytes → Result DecodeError Decoded
decode_literal_with_indexing t buf =
    with_literal t 6 buf
      λ n v rest. ok (record { header = field n v; unread = rest; table = add t (field n v) })

unfoldable pub decode_literal_never_indexed : DynamicTable → Bytes → Result DecodeError Decoded
decode_literal_never_indexed t buf = with_literal t 4 buf λ n v rest.
    ok (record {
      header = record { name = n; value = v; sensitive = true };
      unread = rest;
      table = t;
    })

unfoldable pub decode_literal_without_indexing : DynamicTable → Bytes → Result DecodeError Decoded
decode_literal_without_indexing t buf =
    with_literal t 4 buf λ n v rest. ok (record { header = field n v; unread = rest; table = t })

-- The table after a size update: a read that fails leaves it.
abbrev pub resized : DynamicTable → Result IntegerError ℕ → DynamicTable
resized t (ok size) = set_max_size t (size % 2 ^ 32)
resized t (err e) = t

-- What one round of the loop of `Decode` does.
pub data Outcome : Type 0 where
  decoded : Decoded → Outcome
  updated : DynamicTable → Bytes → Outcome
  failed : DecodeError → Outcome

abbrev pub outcome : Result DecodeError Decoded → Outcome
outcome (ok d) = decoded d
outcome (err e) = failed e

abbrev pub has_bit : ℕ → ℕ → Bool
has_bit b mask = not (bit_and b mask == 0)

-- The switch on the first byte `b` of the reader. The error of a size update is dropped, and
-- decoding goes on where the failed read stopped.
unfoldable pub decode_one : DynamicTable → ℕ → Bytes → Outcome
decode_one t b rest =
    let buf = b ∷ rest in
    if has_bit b 0x80
    then outcome (decode_indexed t buf)
    else if has_bit b 0x40
    then outcome (decode_literal_with_indexing t buf)
    else if has_bit b 0x20
    then (let r = decode_integer buf 5 in updated (resized t r.0) r.1)
    else if has_bit b 0x10
    then outcome (decode_literal_never_indexed t buf)
    else outcome (decode_literal_without_indexing t buf)

-- The headers or an error, and the table that is left.
abbrev pub Answer : Type 0
Answer = Result DecodeError (List HeaderField) × DynamicTable

unfoldable pub decode_loop : ℕ → DynamicTable → Bytes → List HeaderField → Answer
decode_loop fuel t [] headers = (ok headers, t)
decode_loop zero t (b ∷ rest) headers = (err stuck, t)
decode_loop (suc fuel) t (b ∷ rest) headers = elim (decode_one t b rest) [
  | decoded d ↦ decode_loop fuel d.table d.unread (headers ++ (d.header ∷ []))
  | updated t' rest' ↦ decode_loop fuel t' rest' headers
  | failed e ↦ (err e, t)
]

-- Each round takes a byte at least, so the length of the input is enough fuel.
unfoldable pub decode : DynamicTable → Bytes → Answer
decode t buf = decode_loop (length buf) t buf []
