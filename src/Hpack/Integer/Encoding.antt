-- ===== src/Hpack/Integer/Encoding.antt =====
-- What `encodeInteger` (pkg/hpack/encode.go) writes, in plain arithmetic.
use gtest.Common.{
  ℕ, zero, suc, ◌+◌, ◌-◌, ◌*◌, ◌/◌, ◌%◌, ◌^◌, ◌≤◌, ◌<◌, ◌≡◌, [], ◌∷◌, ◌++◌, append_assoc, ltb,
  if◌then◌else◌, Bytes, bit_and, bit_or, ok, Acc, lt_wf, Bool-cases, false, inl, inr, ap, ◌∙◌,
  arith,
}
use gtest.Common.Bits.Masks.{bit_and_low, bit_or_disjoint}
use native.Mathlib.Nat.{one-le-pow, pow-le-pow_right}
use gtest.Common.Bits.{set_top_bit}
use gtest.Hpack.Integer.{encode_rest, encode_integer, prefix_max, is_bad_prefix}

-- Groups of seven bits, lowest first, all but the last with the top bit set; for v < 128 ^ (k + 1).
unfoldable pub groups : ℕ → ℕ → Bytes
groups zero v = v ∷ []
groups (suc k) v =
    let rest = groups k (v / 128) in if ltb v 128 then v ∷ [] else (v % 128 + 128) ∷ rest

-- The whole encoding behind the prefix bits `high`, a multiple of 2 ^ n.
unfoldable pub integer : ℕ → ℕ → ℕ → Bytes
integer n high v =
    if ltb v (prefix_max n)
    then (high + v) ∷ []
    else (high + prefix_max n) ∷ groups 9 (v - prefix_max n)

low_group : (v : ℕ) → bit_or (bit_and v 0x7f) 0x80 % 256 ≡ v % 128 + 128
low_group v =
    let low : bit_and v 0x7f ≡ v % 128 = bit_and_low 7 v in
    rw low (omega (arith, set_top_bit (v % 128) (omega arith)))

encode_rest-groups :
    (k : ℕ) (buf : Bytes) (v : ℕ) (w : Acc ◌<◌ v)
    → v < 128 ^ suc k
    → encode_rest buf v w ≡ buf ++ groups k v
unfolding encode_rest groups
encode_rest-groups zero buf v (Acc.intro _ smaller) h = ground arith
encode_rest-groups (suc k) buf v (Acc.intro _ smaller) h =
    let head : Bytes = (v % 128 + 128) ∷ [] in
    grind (
      arith,
      low_group v,
      λ (w : Acc ◌<◌ (v / 128)). encode_rest-groups k (buf ++ head) (v / 128) w (omega arith),
      append_assoc buf head (groups k (v / 128)),
    )

pub pow_bounds : (n : ℕ) → n ≤ 8 → (1 ≤ 2 ^ n) × (2 ^ n ≤ 256)
pow_bounds n h =
    (one-le-pow n 2 (omega arith), pow-le-pow_right {n = 2} (omega arith) {i = n} {j = 8} h)

-- What `encodeInteger` appends to the buffer.
pub encode_integer-integer :
    (buf : Bytes) (n q v : ℕ)
    → 1 ≤ n
    → n ≤ 8
    → v < 2 ^ 64
    → encode_integer buf n (q * 2 ^ n) v ≡ ok (buf ++ integer n (q * 2 ^ n) v)
unfolding encode_integer integer
encode_integer-integer buf n q v lo hi h =
    let good : is_bad_prefix n ≡ false = ground arith in
    let (one, bound) = pow_bounds n hi in
    let head : Bytes = (q * 2 ^ n + prefix_max n) ∷ [] in
    let rest = v - prefix_max n in
    rw good (elim (Bool-cases (ltb v (prefix_max n))) [
      | inl small ↦
          let first : bit_or (q * 2 ^ n) (v % 256) ≡ q * 2 ^ n + v =
            ground (arith, bit_or_disjoint n q v) in
          rw (small, first)
      | inr big ↦
          let same : prefix_max n % 256 ≡ prefix_max n = omega arith in
          let first = bit_or_disjoint n q (prefix_max n) (omega arith) in
          rw (big, same, first)
            (ap ok (
              encode_rest-groups 9 (buf ++ head) rest (lt_wf.apply rest) (omega arith)
              ∙ append_assoc buf head (groups 9 rest)))
    ])
