-- ===== src/Hpack/Integer/Decoding.antt =====
-- `decodeInteger` (pkg/hpack/decode.go) on any input.
use gtest.Common.{ℕ, ◌+◌, ◌-◌, ◌%◌, ◌^◌, ◌≤◌, [], ◌∷◌, Bytes, bit_and, length, arith}
use gtest.Hpack.Integer.{add_group, decode_rest, decode_integer}

-- The bytes left are a tail of the bytes given.
decode_rest_shrinks : (buf : Bytes) (value m : ℕ) → length (decode_rest buf value m).1 ≤ length buf
unfolding decode_rest
decode_rest_shrinks [] value m = omega arith
decode_rest_shrinks (b ∷ bs) value m =
    ground (arith, decode_rest_shrinks bs (add_group value b m) (m + 7))

-- Success or not, at least one byte of a nonempty reader is taken.
pub decode_integer_shrinks :
    (b : ℕ) (rest : Bytes) (n : ℕ)
    → 1 ≤ n
    → n ≤ 8
    → length (decode_integer (b ∷ rest) n).1 ≤ length rest
unfolding decode_integer
decode_integer_shrinks b rest n lo hi =
    ground (arith, decode_rest_shrinks rest (bit_and b ((2 ^ n - 1) % 256)) 0)
