-- ===== src/Hpack/Decode/Updates.antt =====
-- Dynamic table size updates in `Decode` (pkg/hpack/decode.go), whole and broken.
use gtest.Common.{
  ℕ, ◌+◌, ◌*◌, ◌≤◌, ◌<◌, ◌≡◌, refl, false, true, ◌∙◌, List, [], ◌∷◌, Bytes, length, ok, err, arith,
  All,
}
use gtest.Common.Bits.{bit_and_bit, top_bit}
use gtest.Hpack.Static.{HeaderField}
use gtest.Hpack.Table.{DynamicTable}
use gtest.Hpack.Integer.{eof, decode_integer, decode_rest, add_group}
use gtest.Hpack.Decode.{decode_one, decode_loop, decode, updated, resized, has_bit}
use gtest.Hpack.Decode.Ends.{decode_loop-updated}

update_byte :
    (b : ℕ)
    → 32 ≤ b
    → b < 64
    → (has_bit b 0x80 ≡ false) × (has_bit b 0x40 ≡ false) × (has_bit b 0x20 ≡ true)
update_byte b lo hi = (
  ground (arith, bit_and_bit 7 b (omega arith) (omega arith)),
  ground (arith, bit_and_bit 6 b (omega arith) (omega arith)),
  ground (arith, bit_and_bit 5 b (omega arith) (omega arith)),
)

decode_one_update :
    (t : DynamicTable) (b : ℕ) (more : Bytes)
    → 32 ≤ b
    → b < 64
    → decode_one t b more
      ≡ updated (resized t (decode_integer (b ∷ more) 5).0) (decode_integer (b ∷ more) 5).1
unfolding decode_one
decode_one_update t b more lo hi =
    let (one, two, three) = update_byte b lo hi in rw (one, two, three)

-- The loop of `decodeInteger` at the end of the bytes.
decode_rest_eof :
    (cs : Bytes) (value m : ℕ)
    → All (λ b. (128 ≤ b) × (b < 256)) cs
    → m + 7 * length cs ≤ 63
    → decode_rest cs value m ≡ (err eof, [])
unfolding decode_rest
decode_rest_eof [] value m h short = refl
decode_rest_eof (b ∷ cs) value m ((lo, hi), hs) short =
    ground (arith, top_bit b hi, decode_rest_eof cs (add_group value b m) (m + 7) hs (omega arith))

cut_off :
    (cs : Bytes)
    → All (λ b. (128 ≤ b) × (b < 256)) cs
    → length cs ≤ 9
    → decode_integer (0x3f ∷ cs) 5 ≡ (err eof, [])
unfolding decode_integer
cut_off cs h short = decode_rest_eof cs 31 0 h (omega arith)

decode_loop_end :
    (fuel : ℕ) (t : DynamicTable) (hs : List HeaderField) → decode_loop fuel t [] hs ≡ (ok hs, t)
unfolding decode_loop
decode_loop_end fuel t hs = refl

-- A block that is a size update of at most nine further bytes, all with the top bit set, so that
-- its integer is cut off: `Decode` answers no error and no fields, and the table keeps its limit.
pub decode_update_truncated :
    (t : DynamicTable) (cs : Bytes)
    → All (λ b. (128 ≤ b) × (b < 256)) cs
    → length cs ≤ 9
    → decode t (0x3f ∷ cs) ≡ (ok [], t)
unfolding decode
decode_update_truncated t cs h short =
    decode_loop-updated (length cs) t 0x3f cs []
      (decode_one_update t 0x3f cs (omega arith) (omega arith) ∙ rw (cut_off cs h short))
    ∙ decode_loop_end (length cs) t []
