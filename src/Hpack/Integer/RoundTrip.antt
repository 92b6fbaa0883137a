-- ===== src/Hpack/Integer/RoundTrip.antt =====
-- `decodeInteger` reads back what `encodeInteger` wrote.
use gtest.Common.{
  ℕ, zero, suc, ◌+◌, ◌-◌, ◌*◌, ◌/◌, ◌%◌, ◌^◌, ◌≤◌, ◌<◌, ◌≡◌, ap, ◌∙◌, ◌∷◌, ◌++◌, Bytes, bit_and,
  ltb, Bool-cases, false, inl, inr, ok, arith,
}
use gtest.Common.Bits.{top_bit}
use gtest.Common.Bits.Masks.{bit_and_low, and_low_field}
use gtest.Hpack.Integer.{
  decode_rest, decode_prefix, decode_integer, encode_integer, is_bad_prefix, prefix_max,
}
use gtest.Hpack.Integer.Encoding.{groups, integer, pow_bounds, encode_integer-integer}
use native.Mathlib.Nat.{div-add-mod}
use native.Mathlib.Numerals.{towards_suc}

last_byte :
    (g value m : ℕ) (rest : Bytes)
    → g < 128
    → value + g * 2 ^ m < 2 ^ 64
    → decode_rest (g ∷ rest) value m ≡ (ok (value + g * 2 ^ m), rest)
unfolding decode_rest
last_byte g value m rest hg h = ground (arith, bit_and_low 7 g, top_bit g)

inner_byte :
    (g value m : ℕ) (rest : Bytes)
    → g < 128
    → m + 7 ≤ 63
    → value + g * 2 ^ m < 2 ^ 64
    → decode_rest ((g + 128) ∷ rest) value m ≡ decode_rest rest (value + g * 2 ^ m) (m + 7)
unfolding decode_rest
inner_byte g value m rest hg hm h = ground (arith, bit_and_low 7 (g + 128), top_bit (g + 128))

shift_by_seven : (m : ℕ) → 2 ^ (m + 7) ≡ 128 * 2 ^ m
shift_by_seven m = simp towards_suc (omega arith)

-- A value shifted by m is its low group there, and the rest seven bits further.
split_low : (v m : ℕ) → v * 2 ^ m ≡ v % 128 * 2 ^ m + v / 128 * 2 ^ (m + 7)
split_low v m = omega (
  arith,
  ap (λ (t : ℕ). v / 128 * t) (shift_by_seven m),
  ap (λ (t : ℕ). t * 2 ^ m) (div-add-mod v 128),
)

decode_rest-groups :
    (k v value m : ℕ) (rest : Bytes)
    → v < 128 ^ suc k
    → m + 7 * k ≤ 63
    → value + v * 2 ^ m < 2 ^ 64
    → decode_rest (groups k v ++ rest) value m ≡ (ok (value + v * 2 ^ m), rest)
unfolding groups
decode_rest-groups zero v value m rest hv hm h = last_byte v value m rest hv h
decode_rest-groups (suc k) v value m rest hv hm h = elim (Bool-cases (ltb v 128)) [
  | inl small ↦ rw small (last_byte v value m rest (ground arith) h)
  | inr big ↦
      let parts = split_low v m in
      let value' = value + v % 128 * 2 ^ m in
      let sum : value' + v / 128 * 2 ^ (m + 7) ≡ value + v * 2 ^ m = omega arith in
      rw big (
        inner_byte (v % 128) value m _ (omega arith) (omega arith) (omega arith)
        ∙ decode_rest-groups k (v / 128) value' (m + 7) rest (omega arith) (omega arith)
            (omega arith)
        ∙ ap (λ (t : ℕ). (ok t, rest)) sum)
]

-- The reader of the arithmetic encoding.
pub decode_integer-integer :
    (n q v : ℕ) (rest : Bytes)
    → 1 ≤ n
    → n ≤ 8
    → v < 2 ^ 64
    → decode_integer (integer n (q * 2 ^ n) v ++ rest) n ≡ (ok v, rest)
unfolding decode_integer decode_prefix integer
decode_integer-integer n q v rest lo hi h =
    let good : is_bad_prefix n ≡ false = ground arith in
    let (one, bound) = pow_bounds n hi in
    let mask : prefix_max n % 256 ≡ prefix_max n = omega arith in
    rw good (elim (Bool-cases (ltb v (prefix_max n))) [
      | inl small ↦
          let low : bit_and (q * 2 ^ n + v) (prefix_max n) ≡ v =
            and_low_field n q v (ground arith) in
          rw (small, mask, low, small)
      | inr big ↦
          let low : bit_and (q * 2 ^ n + prefix_max n) (prefix_max n) ≡ prefix_max n =
            and_low_field n q (prefix_max n) (omega arith) in
          let full : ltb (prefix_max n) (prefix_max n) ≡ false = ground arith in
          let sum : prefix_max n + (v - prefix_max n) * 2 ^ 0 ≡ v = ground arith in
          rw (big, mask, low, full)
            (decode_rest-groups 9 (v - prefix_max n) (prefix_max n) 0 rest (omega arith)
                (omega arith) (omega (arith, sum))
              ∙ ap (λ (t : ℕ). (ok t, rest)) sum)
    ])

-- On a prefix of 1 to 8 bits, `encodeInteger` keeps the buffer and appends some bytes for a uint64,
-- and from these `decodeInteger` reads it back, whatever prefix bits are before it and whatever bytes follow.
pub decode-encode_integer :
    (buf : Bytes) (n q v : ℕ) (rest : Bytes)
    → 1 ≤ n
    → n ≤ 8
    → v < 2 ^ 64
    → (e : Bytes) × (encode_integer buf n (q * 2 ^ n) v ≡ ok (buf ++ e))
      × (decode_integer (e ++ rest) n ≡ (ok v, rest))
decode-encode_integer buf n q v rest lo hi h = (
  integer n (q * 2 ^ n) v,
  encode_integer-integer buf n q v lo hi h,
  decode_integer-integer n q v rest lo hi h,
)
