-- ===== src/Common/Ints.antt =====
-- Go's `int` and its conversions to and from `uint64`. `negsuc n` is -(n + 1).
use Prim.Native.Nat.{ℕ, suc, ◌-◌, ◌^◌, ◌<◌}
use mathlib.Core.Path.{◌≡◌}
use native.Mathlib.Omega.{arith}
use gtest.Common.Tests.{ltb, if◌then◌else◌}

pub data ℤ : Type 0 where
  pos : ℕ → ℤ
  negsuc : ℕ → ℤ

-- `int(v)` of a uint64: two's complement.
unfoldable pub to_int : ℕ → ℤ
to_int v = if ltb v (2 ^ 63) then pos v else negsuc (2 ^ 64 - v - 1)

-- `uint64(i)` of an int.
abbrev pub of_int : ℤ → ℕ
of_int (pos n) = n
of_int (negsuc n) = 2 ^ 64 - suc n

pub to_int-small : (v : ℕ) → v < 2 ^ 63 → to_int v ≡ pos v
unfolding to_int
to_int-small v h = ground arith
