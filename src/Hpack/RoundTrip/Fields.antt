-- ===== src/Hpack/RoundTrip/Fields.antt =====
-- One field that `encodeField` of pkg/hpack/encode.go writes, read by the switch of `Decode`
-- (pkg/hpack/decode.go), for each answer of the search.
use gtest.Common.{
  ℕ, zero, suc, ◌*◌, ◌^◌, ◌≤◌, ◌<◌, ◌≡◌, refl, sym, ap, ◌∙◌, Bool, true, false, [], ◌∷◌, ◌++◌,
  Bool-cases, inl, inr, append_assoc, Bytes, length, length-append, ok, pos, arith, ◌>>=◌,
}
use gtest.Hpack.Static.{HeaderField, field}
use gtest.Hpack.Table.{DynamicTable, Match, lookup, add, search}
use gtest.Hpack.Table.Bounds.{add-IsValid}
use gtest.Hpack.Table.Exact.{IsExact, HasRoom, add-entries, length-IsExact}
use gtest.Hpack.Table.Search.{Answers, search-Answers}
use gtest.Hpack.Table.Search.Places.{Located}
use gtest.Hpack.Integer.Encoding.{integer, encode_integer-integer}
use gtest.Hpack.Text.{text, encode_string-text}
use gtest.Hpack.Encode.{
  Encoder, write_byte, write_integer, write_string, add_positive, encode_indexed,
  encode_literal_with_indexing, encode_literal_with_indexing_new_name, encode_literal_never_indexed,
  encode_literal_never_indexed_new_name, encode_match,
}
use gtest.Hpack.Decode.{decode_one}
use gtest.Hpack.Decode.Fields.{
  yields, decode_one-indexed, decode_one_named, decode_one_new, decode_one_never_named,
  decode_one_never_new,
}

abbrev appended : Encoder → Bytes → Encoder
appended e bs = record e { buf = e.buf ++ bs }

write_integer-integer :
    (e : Encoder) (n q v : ℕ)
    → 1 ≤ n
    → n ≤ 8
    → v < 2 ^ 64
    → write_integer e n (q * 2 ^ n) v ≡ ok (appended e (integer n (q * 2 ^ n) v))
write_integer-integer e n q v lo hi h = rw (encode_integer-integer e.buf n q v lo hi h)

write_string-text :
    (e : Encoder) (s : Bytes) (huffman : Bool)
    → length s < 2 ^ 64
    → write_string e s huffman ≡ ok (appended e (text s))
write_string-text e s huffman h = rw (encode_string-text e.buf s huffman h)

-- One field sent and read: what is written, what is decoded from it, and the table of both sides.
pub record Trip (e : Encoder) (hf : HeaderField) (m : Match) : Type 0 where
  pub chunk : Bytes
  pub table : DynamicTable
  pub header : HeaderField
  pub encodes : encode_match e hf m ≡ ok (record { table = table; buf = e.buf ++ chunk })
  pub decodes :
      (b : ℕ) (more rest : Bytes)
      → chunk ++ rest ≡ b ∷ more
      → decode_one e.table b more ≡ yields header rest table
  pub nonempty : 1 ≤ length chunk
  pub same_name : header.name ≡ hf.name
  pub same_value : header.value ≡ hf.value
  pub exact : IsExact table
  pub limit : table.max_size ≡ e.table.max_size

add-limit : (t : DynamicTable) (hf : HeaderField) → IsExact t → (add t hf).max_size ≡ t.max_size
add-limit t hf v = (add-IsValid t hf (omega (arith, v.exact, v.within, v.limit))).1

add_positive-found :
    (e : Encoder) (i : ℕ) (v : Bytes) {hf : HeaderField}
    → 0 < i
    → lookup e.table (pos i) ≡ ok hf
    → add_positive e (pos i) v ≡ record e { table = add e.table (field hf.name v) }
add_positive-found e zero v h l = absurd (omega arith)
add_positive-found e (suc i) v h l = rw l

length-integer : (n high v : ℕ) → 1 ≤ length (integer n high v)
unfolding integer
length-integer n high v = ground arith

module _ (e : Encoder) (hf : HeaderField) (valid : IsExact e.table)
    (room : HasRoom e.table hf) where
  Trip-full :
      (i : ℕ)
      → Located e.table hf.name hf.value
          (record { index = i; name_match = true; value_match = true })
      → Trip e hf (record { index = i; name_match = true; value_match = true })
  unfolding encode_match encode_indexed
  Trip-full i l =
      let small : i < 2 ^ 63 = omega (arith, l.bounded, length-IsExact e.table valid) in
      record {
        chunk = integer 7 0x80 i;
        table = e.table;
        header = l.entry;
        encodes = write_integer-integer e 7 1 i (omega arith) (omega arith) (omega arith);
        decodes =
            λ b more rest. decode_one-indexed e.table b more i rest l.positive small l.looked_up;
        nonempty = length-integer 7 0x80 i;
        same_name = l.named;
        same_value = l.valued refl;
        exact = valid;
        limit = refl;
      }

  Trip-name :
      (i : ℕ)
      → hf.sensitive ≡ false
      → Located e.table hf.name hf.value
          (record { index = i; name_match = true; value_match = false })
      → Trip e hf (record { index = i; name_match = true; value_match = false })
  unfolding encode_match encode_literal_with_indexing
  Trip-name i plain l =
      let small : i < 2 ^ 63 = omega (arith, l.bounded, length-IsExact e.table valid) in
      let added = field l.entry.name hf.value in
      let roomy : HasRoom e.table added = rw l.named room in
      let (exact', entries') = add-entries e.table added valid roomy in
      record {
        chunk = integer 6 0x40 i ++ text hf.value;
        table = add e.table added;
        header = added;
        encodes =
            rw
              (
                plain,
                write_integer-integer e 6 1 i (omega arith) (omega arith) (omega arith),
                write_string-text (appended e (integer 6 0x40 i)) hf.value false (omega arith),
                ◌>>=◌,
              )
              (rw (
                add_positive-found (appended (appended e (integer 6 0x40 i)) (text hf.value)) i
                    hf.value l.positive l.looked_up,
                append_assoc,
              ));
        decodes = λ b more rest h.
            decode_one_named e.table b more i hf.value rest l.positive small l.looked_up
              (omega arith) (sym (append_assoc (integer 6 0x40 i) (text hf.value) rest) ∙ h);
        nonempty =
            omega
              (arith, length-integer 6 0x40 i, length-append (integer 6 0x40 i) (text hf.value));
        same_name = l.named;
        same_value = refl;
        exact = exact';
        limit = add-limit e.table added valid;
      }

  Trip-name_sensitive :
      (i : ℕ)
      → hf.sensitive ≡ true
      → Located e.table hf.name hf.value
          (record { index = i; name_match = true; value_match = false })
      → Trip e hf (record { index = i; name_match = true; value_match = false })
  unfolding encode_match encode_literal_never_indexed
  Trip-name_sensitive i hidden l =
      let small : i < 2 ^ 63 = omega (arith, l.bounded, length-IsExact e.table valid) in
      record {
        chunk = integer 4 0x10 i ++ text hf.value;
        table = e.table;
        header = record { name = l.entry.name; value = hf.value; sensitive = true };
        encodes = rw (
          hidden,
          write_integer-integer e 4 1 i (omega arith) (omega arith) (omega arith),
          write_string-text (appended e (integer 4 0x10 i)) hf.value false (omega arith),
          append_assoc,
        );
        decodes = λ b more rest h.
            decode_one_never_named e.table b more i hf.value rest l.positive small l.looked_up
              (omega arith) (sym (append_assoc (integer 4 0x10 i) (text hf.value) rest) ∙ h);
        nonempty =
            omega
              (arith, length-integer 4 0x10 i, length-append (integer 4 0x10 i) (text hf.value));
        same_name = l.named;
        same_value = refl;
        exact = valid;
        limit = refl;
      }

  Trip-new :
      (i : ℕ)
      → hf.sensitive ≡ false
      → Trip e hf (record { index = i; name_match = false; value_match = false })
  unfolding encode_match encode_literal_with_indexing_new_name
  Trip-new i plain =
      let added = field hf.name hf.value in
      let (exact', entries') = add-entries e.table added valid room in
      record {
        chunk = 0x40 ∷ (text hf.name ++ text hf.value);
        table = add e.table added;
        header = added;
        encodes = rw (
          plain,
          write_string-text (write_byte e 0x40) hf.name false (omega arith),
          write_string-text (appended (write_byte e 0x40) (text hf.name)) hf.value false
              (omega arith),
          append_assoc (e.buf ++ (0x40 ∷ [])) (text hf.name) (text hf.value),
          append_assoc e.buf (0x40 ∷ []) (text hf.name ++ text hf.value),
        );
        decodes = λ b more rest h.
            decode_one_new e.table b more hf.name hf.value rest (omega arith) (omega arith)
              (sym (ap (◌∷◌ 0x40) (append_assoc (text hf.name) (text hf.value) rest)) ∙ h);
        nonempty = omega arith;
        same_name = refl;
        same_value = refl;
        exact = exact';
        limit = add-limit e.table added valid;
      }

  Trip-new_sensitive :
      (i : ℕ)
      → hf.sensitive ≡ true
      → Trip e hf (record { index = i; name_match = false; value_match = false })
  unfolding encode_match encode_literal_never_indexed_new_name
  Trip-new_sensitive i hidden = record {
    chunk = 0x10 ∷ (text hf.name ++ text hf.value);
    table = e.table;
    header = record { name = hf.name; value = hf.value; sensitive = true };
    encodes = rw (
      hidden,
      write_string-text (write_byte e 0x10) hf.name false (omega arith),
      write_string-text (appended (write_byte e 0x10) (text hf.name)) hf.value false (omega arith),
      append_assoc (e.buf ++ (0x10 ∷ [])) (text hf.name) (text hf.value),
      append_assoc e.buf (0x10 ∷ []) (text hf.name ++ text hf.value),
    );
    decodes = λ b more rest h.
        decode_one_never_new e.table b more hf.name hf.value rest (omega arith) (omega arith)
          (sym (ap (◌∷◌ 0x10) (append_assoc (text hf.name) (text hf.value) rest)) ∙ h);
    nonempty = omega arith;
    same_name = refl;
    same_value = refl;
    exact = valid;
    limit = refl;
  }

  Trip-match :
      (i : ℕ) (by_name by_value : Bool)
      → Answers e.table hf.name hf.value
          (record { index = i; name_match = by_name; value_match = by_value })
      → Trip e hf (record { index = i; name_match = by_name; value_match = by_value })
  Trip-match i true true a = Trip-full i (a.found refl)
  Trip-match i false true a = absurd (let h = a.full_named refl in ground arith)
  Trip-match i true false a = elim (Bool-cases hf.sensitive) [
    | inl h ↦ Trip-name_sensitive i h (a.found refl)
    | inr h ↦ Trip-name i h (a.found refl)
  ]
  Trip-match i false false a = elim (Bool-cases hf.sensitive) [
    | inl h ↦ Trip-new_sensitive i h
    | inr h ↦ Trip-new i h
  ]

  pub Trip-field : Trip e hf (search e.table hf.name hf.value)
  Trip-field = Trip-match _ _ _ (search-Answers e.table hf.name hf.value)
