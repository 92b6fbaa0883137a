-- ===== src/Common/Bits.antt =====
-- Masks on one byte as arithmetic. Each fact is a table over the masks and the bytes, checked by
-- evaluation.
pub mod Masks
use Prim.Native.Nat.{ℕ, zero, suc, ◌+◌, ◌*◌, ◌/◌, ◌%◌, ◌^◌, ◌<◌, bit_and, bit_or}
use mathlib.Core.Path.{◌≡◌, refl}
use mathlib.Core.Bool.{Bool, true, ◌&&◌}
use native.Mathlib.Omega.{arith}
use gtest.Common.Tests.{◌==◌, ==_iff}

-- A test at every number below a bound.
passes : (ℕ → Bool) → ℕ → Bool
passes test zero = true
passes test (suc m) = passes test m && test m

passes_at : (test : ℕ → Bool) (i m : ℕ) → i < m → passes test m ≡ true → test i ≡ true
unfolding passes
passes_at test i (suc m) below all = ground (arith, passes_at test i m)
passes_at test i zero below all = absurd (omega arith)

module _ (f g : ℕ → ℕ → ℕ) where
  agree_table : ℕ → ℕ → Bool
  agree_table m n = passes (λ i. passes (λ x. f i x == g i x) n) m

  agree_table_sound : (m n : ℕ) → agree_table m n ≡ true → (i x : ℕ) → i < m → x < n → f i x ≡ g i x
  unfolding agree_table
  agree_table_sound m n h i x hi hx = (==_iff _ _).0 (
      passes_at (λ x. f i x == g i x) x n hx
        (passes_at (λ i. passes (λ x. f i x == g i x) n) i m hi h))

-- `b & (1 << k)` tests one bit.
pub bit_and_bit : (k b : ℕ) → k < 8 → b < 256 → bit_and b (2 ^ k) ≡ b / 2 ^ k % 2 * 2 ^ k
unfolding agree_table passes
bit_and_bit k b hk hb =
    agree_table_sound (λ k b. bit_and b (2 ^ k)) (λ k b. b / 2 ^ k % 2 * 2 ^ k) 8 256 refl k b hk hb

-- `b | 0x80` sets the top bit.
pub set_top_bit : (b : ℕ) → b < 128 → bit_or b 0x80 ≡ b + 128
unfolding agree_table passes
set_top_bit b h =
    agree_table_sound (λ _ b. bit_or b 0x80) (λ _ b. b + 128) 1 128 refl 0 b (omega arith) h

-- `b & 0x80` of a byte.
pub top_bit : (b : ℕ) → b < 256 → bit_and b 0x80 ≡ b / 128 * 128
unfolding agree_table passes
top_bit b h =
    agree_table_sound (λ _ b. bit_and b 0x80) (λ _ b. b / 128 * 128) 1 256 refl 0 b (omega arith) h
