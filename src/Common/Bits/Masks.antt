-- ===== src/Common/Bits/Masks.antt =====
-- `&` with a low mask and `|` of disjoint fields as arithmetic, on numbers of any width.
use Prim.Native.Nat.{
  ℕ, zero, suc, ◌+◌, ◌-◌, ◌*◌, ◌/◌, ◌%◌, ◌^◌, ◌≤◌, ◌<◌, min, max, bit_and, bit_or, digits,
  bit_and-bitwise, bit_or-bitwise,
}
use mathlib.Core.Path.{◌≡◌, refl, sym, ap, ap₂, ◌∙◌}
use native.Mathlib.Omega.{arith}
use native.Mathlib.Nat.{pow-suc, one-le-pow, div-add-mod', mod-lt}

-- The digit recursion of a native operation needs no more fuel than its first number.
module _ (tail : ℕ → ℕ) (op : ℕ → ℕ → ℕ) where
  abbrev run : ℕ → ℕ → ℕ → ℕ
  run = digits tail op

  run_fuel : (j k a : ℕ) → a ≤ j → a ≤ k → (b : ℕ) → run j a b ≡ run k a b
  run_fuel zero zero a p q b = refl
  run_fuel (suc j) zero zero p q b = refl
  run_fuel zero (suc k) zero p q b = refl
  run_fuel (suc j) (suc k) zero p q b = refl
  run_fuel (suc j) zero (suc a) p q b = absurd (omega arith)
  run_fuel zero (suc k) (suc a) p q b = absurd (omega arith)
  run_fuel (suc j) (suc k) (suc a) p q b =
      omega (arith, run_fuel j k (suc a / 2) (omega arith) (omega arith) (b / 2))

  run_digit :
      (a b : ℕ)
      → run (suc a) (suc a) b ≡ run (suc a / 2) (suc a / 2) (b / 2) * 2 + op (suc a % 2) (b % 2)
  run_digit a b =
      omega (arith, run_fuel a (suc a / 2) (suc a / 2) (omega arith) (omega arith) (b / 2))

and_digit : (a b : ℕ) → bit_and a b ≡ bit_and (a / 2) (b / 2) * 2 + min (a % 2) (b % 2)
and_digit zero b = omega (arith, bit_and-bitwise 0 b, bit_and-bitwise 0 (b / 2))
and_digit (suc a) b =
    bit_and-bitwise (suc a) b
    ∙ run_digit (λ y. 0) min a b
    ∙ ap (λ (t : ℕ). t * 2 + min (suc a % 2) (b % 2)) (sym (bit_and-bitwise (suc a / 2) (b / 2)))

or_digit : (a b : ℕ) → bit_or a b ≡ bit_or (a / 2) (b / 2) * 2 + max (a % 2) (b % 2)
or_digit zero b = omega (arith, bit_or-bitwise 0 b, bit_or-bitwise 0 (b / 2))
or_digit (suc a) b =
    bit_or-bitwise (suc a) b
    ∙ run_digit (λ y. y) max a b
    ∙ ap (λ (t : ℕ). t * 2 + max (suc a % 2) (b % 2)) (sym (bit_or-bitwise (suc a / 2) (b / 2)))

-- Halving `a` as often as a bound allows ends at 0.
and_zero : (n a : ℕ) → a ≤ n → bit_and a 0 ≡ 0
and_zero zero a h = omega (arith, let e : a ≡ 0 = omega arith in ap (λ (t : ℕ). bit_and t 0) e)
and_zero (suc n) zero h = bit_and-bitwise 0 0
and_zero (suc n) (suc a) h =
    omega (arith, and_digit (suc a) 0, and_zero n (suc a / 2) (omega arith))

or_zero : (n a : ℕ) → a ≤ n → bit_or a 0 ≡ a
or_zero zero a h = omega (arith, let e : a ≡ 0 = omega arith in ap (λ (t : ℕ). bit_or t 0) e)
or_zero (suc n) zero h = bit_or-bitwise 0 0
or_zero (suc n) (suc a) h = omega (arith, or_digit (suc a) 0, or_zero n (suc a / 2) (omega arith))

-- A field at bit k + 1 is twice the field at bit k.
field_double : (q k : ℕ) → q * 2 ^ suc k ≡ 2 * (q * 2 ^ k)
field_double q k = omega (arith, ap (λ (t : ℕ). q * t) (pow-suc 2 k))

-- `|` of a number and one that fits below it is their sum.
pub bit_or_disjoint : (k q r : ℕ) → r < 2 ^ k → bit_or (q * 2 ^ k) r ≡ q * 2 ^ k + r
bit_or_disjoint zero q r h =
    let none : r ≡ 0 = omega arith in rw none (omega (arith, or_zero (q * 1) (q * 1) (omega arith)))
bit_or_disjoint (suc k) q r h =
    let low : r / 2 < 2 ^ k = omega (arith, pow-suc 2 k) in
    let halved : q * 2 ^ suc k / 2 ≡ q * 2 ^ k = omega (arith, field_double q k) in
    omega (
      arith,
      or_digit (q * 2 ^ suc k) r,
      field_double q k,
      ap (λ (t : ℕ). bit_or t (r / 2)) halved,
      bit_or_disjoint k q (r / 2) low,
    )

pub and_low_field : (k q r : ℕ) → r < 2 ^ k → bit_and (q * 2 ^ k + r) (2 ^ k - 1) ≡ r
and_low_field zero q r h = omega (arith, and_zero (q * 1 + r) (q * 1 + r) (omega arith))
and_low_field (suc k) q r h =
    let mask : (2 ^ suc k - 1) / 2 ≡ 2 ^ k - 1 = omega (arith, pow-suc 2 k, one-le-pow k 2) in
    let low : r / 2 < 2 ^ k = omega (arith, pow-suc 2 k) in
    let halved : (q * 2 ^ suc k + r) / 2 ≡ q * 2 ^ k + r / 2 = omega (arith, field_double q k) in
    omega (
      arith,
      and_digit (q * 2 ^ suc k + r) (2 ^ suc k - 1),
      field_double q k,
      pow-suc 2 k,
      one-le-pow k 2,
      ap₂ bit_and halved mask,
      and_low_field k q (r / 2) low,
    )

-- `a & (1 << k - 1)` is the remainder by 2 ^ k.
pub bit_and_low : (k a : ℕ) → bit_and a (2 ^ k - 1) ≡ a % 2 ^ k
bit_and_low k a =
    let split : a ≡ a / 2 ^ k * 2 ^ k + a % 2 ^ k = sym (div-add-mod' a (2 ^ k)) in
    ap (λ (t : ℕ). bit_and t (2 ^ k - 1)) split
    ∙ and_low_field k (a / 2 ^ k) (a % 2 ^ k) (mod-lt a (one-le-pow k 2 (omega arith)))

pub bit_or_comm_below : (n a b : ℕ) → a ≤ n → b ≤ n → bit_or a b ≡ bit_or b a
bit_or_comm_below zero a b h k =
    let e : a ≡ 0 = omega arith in let f : b ≡ 0 = omega arith in rw (e, f)
bit_or_comm_below (suc n) a b h k = omega (
  arith,
  or_digit a b,
  or_digit b a,
  bit_or_comm_below n (a / 2) (b / 2) (omega arith) (omega arith),
)

pub bit_or_comm : (a b : ℕ) → bit_or a b ≡ bit_or b a
bit_or_comm a b = bit_or_comm_below (a + b) a b (omega arith) (omega arith)
