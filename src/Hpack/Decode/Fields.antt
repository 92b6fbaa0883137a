-- ===== src/Hpack/Decode/Fields.antt =====
-- One round of `Decode` (pkg/hpack/decode.go) on each representation that the encoder writes.
use gtest.Common.{
  ℕ, ◌+◌, ◌*◌, ◌^◌, ◌≤◌, ◌<◌, ◌≡◌, ap, ◌∙◌, true, false, ◌∷◌, ◌++◌, ◌==◌, Bytes, length, Result, ok,
  pos, to_int-small, arith,
}
use gtest.Common.Bits.{bit_and_bit}
use gtest.Hpack.Static.{HeaderField, field}
use gtest.Hpack.Table.{DynamicTable, lookup, add}
use gtest.Hpack.Integer.Encoding.{integer}
use gtest.Hpack.Integer.RoundTrip.{decode_integer-integer}
use gtest.Hpack.Text.{text, max_alloc, decode_string-text}
use gtest.Hpack.Decode.{
  DecodeError, Decoded, Outcome, decoded, decode_one, decode_indexed, decode_literal_with_indexing,
  decode_literal_never_indexed, with_literal, has_bit, outcome,
}

-- The first byte of an integer holds the prefix bits.
pub integer_head :
    (n high v : ℕ) (rest more : Bytes) (b : ℕ)
    → 1 ≤ 2 ^ n
    → integer n high v ++ rest ≡ b ∷ more
    → (high ≤ b) × (b < high + 2 ^ n)
unfolding integer
integer_head n high v rest more b h e = ground arith

-- The switch on the first byte, by its range.
indexed_byte : (b : ℕ) → 128 ≤ b → b < 256 → has_bit b 0x80 ≡ true
indexed_byte b lo hi = ground (arith, bit_and_bit 7 b (omega arith) hi)

incremental_byte : (b : ℕ) → 64 ≤ b → b < 128 → (has_bit b 0x80 ≡ false) × (has_bit b 0x40 ≡ true)
incremental_byte b lo hi = (
  ground (arith, bit_and_bit 7 b (omega arith) (omega arith)),
  ground (arith, bit_and_bit 6 b (omega arith) (omega arith)),
)

never_indexed_byte :
    (b : ℕ)
    → 16 ≤ b
    → b < 32
    → (has_bit b 0x80 ≡ false)
      × (has_bit b 0x40 ≡ false)
      × (has_bit b 0x20 ≡ false)
      × (has_bit b 0x10 ≡ true)
never_indexed_byte b lo hi = (
  ground (arith, bit_and_bit 7 b (omega arith) (omega arith)),
  ground (arith, bit_and_bit 6 b (omega arith) (omega arith)),
  ground (arith, bit_and_bit 5 b (omega arith) (omega arith)),
  ground (arith, bit_and_bit 4 b (omega arith) (omega arith)),
)

module _ (t : DynamicTable) (i : ℕ) {hf : HeaderField} (v rest : Bytes) (lo : 0 < i)
    (hi : i < 2 ^ 63) (there : lookup t (pos i) ≡ ok hf) (fits : length v ≤ max_alloc) where
  literal_named :
      (n q : ℕ) (f : Bytes → Bytes → Bytes → Result DecodeError Decoded)
      → 1 ≤ n
      → n ≤ 8
      → with_literal t n (integer n (q * 2 ^ n) i ++ (text v ++ rest)) f ≡ f hf.name v rest
  literal_named n q f h k =
      let nonzero : (i == 0) ≡ false = ground arith in
      rw (
        decode_integer-integer n q i (text v ++ rest) h k (omega arith),
        nonzero,
        to_int-small i hi,
        there,
        decode_string-text v rest fits,
      )

module _ (t : DynamicTable) (m v rest : Bytes) (fits_name : length m ≤ max_alloc)
    (fits : length v ≤ max_alloc) where
  literal_new :
      (n q : ℕ) (f : Bytes → Bytes → Bytes → Result DecodeError Decoded)
      → 1 ≤ n
      → n ≤ 8
      → with_literal t n (integer n (q * 2 ^ n) 0 ++ (text m ++ (text v ++ rest))) f ≡ f m v rest
  literal_new n q f h k = rw (
    decode_integer-integer n q 0 (text m ++ (text v ++ rest)) h k (omega arith),
    decode_string-text m (text v ++ rest) fits_name,
    decode_string-text v rest fits,
  )

-- What is decoded: a field, with the rest unread, and the table behind it.
abbrev pub yields : HeaderField → Bytes → DynamicTable → Outcome
yields hf rest t = decoded (record { header = hf; unread = rest; table = t })

module _ (t : DynamicTable) (b : ℕ) (more : Bytes) where
  pub decode_one-indexed :
      (i : ℕ) {hf : HeaderField} (rest : Bytes)
      → 0 < i
      → i < 2 ^ 63
      → lookup t (pos i) ≡ ok hf
      → integer 7 0x80 i ++ rest ≡ b ∷ more
      → decode_one t b more ≡ yields hf rest t
  unfolding decode_one decode_indexed
  decode_one-indexed i rest lo hi there e =
      let (low, high) = integer_head 7 0x80 i rest more b (omega arith) e in
      let nonzero : (i == 0) ≡ false = ground arith in
      rw (
        indexed_byte b low high,
        ← e,
        decode_integer-integer 7 1 i rest (omega arith) (omega arith) (omega arith),
        nonzero,
        to_int-small i hi,
        there,
      )

  decode_one-incremental :
      64 ≤ b → b < 128 → decode_one t b more ≡ outcome (decode_literal_with_indexing t (b ∷ more))
  unfolding decode_one
  decode_one-incremental low high = let (one, two) = incremental_byte b low high in rw (one, two)

  decode_one-never :
      16 ≤ b → b < 32 → decode_one t b more ≡ outcome (decode_literal_never_indexed t (b ∷ more))
  unfolding decode_one
  decode_one-never low high =
      let (one, two, three, four) = never_indexed_byte b low high in rw (one, two, three, four)

  pub decode_one_named :
      (i : ℕ) {hf : HeaderField} (v rest : Bytes)
      → 0 < i
      → i < 2 ^ 63
      → lookup t (pos i) ≡ ok hf
      → length v ≤ max_alloc
      → integer 6 0x40 i ++ (text v ++ rest) ≡ b ∷ more
      → decode_one t b more ≡ yields (field hf.name v) rest (add t (field hf.name v))
  unfolding decode_literal_with_indexing
  decode_one_named i v rest lo hi there fits e =
      let (low, high) = integer_head 6 0x40 i (text v ++ rest) more b (omega arith) e in
      decode_one-incremental low high
      ∙ rw (← e)
          (ap outcome (literal_named t i v rest lo hi there fits 6 1 _ (omega arith) (omega arith)))

  pub decode_one_new :
      (m v rest : Bytes)
      → length m ≤ max_alloc
      → length v ≤ max_alloc
      → 0x40 ∷ (text m ++ (text v ++ rest)) ≡ b ∷ more
      → decode_one t b more ≡ yields (field m v) rest (add t (field m v))
  unfolding decode_literal_with_indexing integer
  decode_one_new m v rest fits_name fits e =
      let first : b ≡ 0x40 = cc in
      decode_one-incremental (omega arith) (omega arith)
      ∙ rw (← e)
          (ap outcome (literal_new t m v rest fits_name fits 6 1 _ (omega arith) (omega arith)))

  pub decode_one_never_named :
      (i : ℕ) {hf : HeaderField} (v rest : Bytes)
      → 0 < i
      → i < 2 ^ 63
      → lookup t (pos i) ≡ ok hf
      → length v ≤ max_alloc
      → integer 4 0x10 i ++ (text v ++ rest) ≡ b ∷ more
      → decode_one t b more ≡ yields (record { name = hf.name; value = v; sensitive = true }) rest t
  unfolding decode_literal_never_indexed
  decode_one_never_named i v rest lo hi there fits e =
      let (low, high) = integer_head 4 0x10 i (text v ++ rest) more b (omega arith) e in
      decode_one-never low high
      ∙ rw (← e)
          (ap outcome (literal_named t i v rest lo hi there fits 4 1 _ (omega arith) (omega arith)))

  pub decode_one_never_new :
      (m v rest : Bytes)
      → length m ≤ max_alloc
      → length v ≤ max_alloc
      → 0x10 ∷ (text m ++ (text v ++ rest)) ≡ b ∷ more
      → decode_one t b more ≡ yields (record { name = m; value = v; sensitive = true }) rest t
  unfolding decode_literal_never_indexed integer
  decode_one_never_new m v rest fits_name fits e =
      let first : b ≡ 0x10 = cc in
      decode_one-never (omega arith) (omega arith)
      ∙ rw (← e)
          (ap outcome (literal_new t m v rest fits_name fits 4 1 _ (omega arith) (omega arith)))
