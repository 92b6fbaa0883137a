-- ===== src/Common/Numerals.antt =====
-- Numbers as text: `%d` and `%x` of fmt, and `strconv.ParseInt` in a fixed base. The values of
-- `ParseInt` are those of an int64, in which `Atoi` reads too.
use Prim.Native.Nat.{ℕ, zero, suc, ◌+◌, ◌-◌, ◌*◌, ◌/◌, ◌%◌, ◌^◌, ◌≤◌, ◌<◌}
use mathlib.Core.Path.{◌≡◌, refl, ◌∙◌, ap}
use mathlib.Core.Bool.{true, false, ◌&&◌}
use mathlib.Core.List.{[], ◌∷◌, ◌++◌}
use mathlib.Core.Logic.{◌≢◌, inl, inr}
use mathlib.Core.Option.{Option, none, some}
use native.Mathlib.Omega.{arith}
use gtest.Common.Tests.{ltb, leb, ◌==◌, if◌then◌else◌, Bool-cases}
use gtest.Common.Lists.{Bytes, All, All-append}
use gtest.Common.Ints.{ℤ, pos, negsuc}

abbrev pub digit : ℕ → ℕ
digit d = if ltb d 10 then b'0' + d else b'a' + (d - 10)

-- The digits of a number; the number itself is enough fuel.
unfoldable pub numeral : ℕ → ℕ → ℕ → Bytes
numeral base zero v = digit v ∷ []
numeral base (suc fuel) v =
    let rest = numeral base fuel (v / base) in
    if ltb v base then digit v ∷ [] else rest ++ (digit (v % base) ∷ [])

abbrev pub decimal : ℕ → Bytes
decimal v = numeral 10 v v

abbrev pub hex : ℕ → Bytes
hex v = numeral 16 v v

abbrev pub digit_value : ℕ → Option ℕ
digit_value c =
    if leb b'0' c && leb c b'9'
    then some (c - b'0')
    else if leb b'a' c && leb c b'z'
    then some (c - b'a' + 10)
    else if leb b'A' c && leb c b'Z'
    then some (c - b'A' + 10)
    else none

abbrev pub in_base : ℕ → Option ℕ → Option ℕ
in_base base none = none
in_base base (some d) = if ltb d base then some d else none

-- The value of a run of digits behind a number.
unfoldable pub scan : ℕ → Bytes → ℕ → Option ℕ
scan base [] n = some n
scan base (c ∷ cs) n = elim (in_base base (digit_value c)) [
  | none ↦ none
  | some d ↦ scan base cs (n * base + d)
]

abbrev pub negated : ℕ → ℤ
negated zero = pos 0
negated (suc n) = negsuc n

-- What is out of range, and a text with no digit, is an error.
abbrev pub positive : Option ℕ → Option ℤ
positive none = none
positive (some n) = if ltb n (2 ^ 63) then some (pos n) else none

abbrev pub negative : Option ℕ → Option ℤ
negative none = none
negative (some n) = if leb n (2 ^ 63) then some (negated n) else none

unfoldable pub parse_digits : ℕ → Bytes → Option ℕ
unfolding scan
parse_digits base [] = none
parse_digits base (c ∷ cs) = scan base (c ∷ cs) 0

unfoldable pub parse_int : ℕ → Bytes → Option ℤ
unfolding parse_digits
parse_int base [] = none
parse_int base (c ∷ cs) =
    if c == b'-'
    then negative (parse_digits base cs)
    else if c == b'+'
    then positive (parse_digits base cs)
    else positive (parse_digits base (c ∷ cs))

-- `strconv.ParseUint` in base 10 at a width in bits.
abbrev pub in_bits : ℕ → Option ℕ → Option ℕ
in_bits w none = none
in_bits w (some n) = if ltb n (2 ^ w) then some n else none

unfoldable pub parse_uint : ℕ → Bytes → Option ℕ
unfolding parse_digits
parse_uint w s = in_bits w (parse_digits 10 s)

unfoldable pub atoi : Bytes → Option ℤ
unfolding parse_int
atoi s = parse_int 10 s

some_same : {a b : ℕ} → some a ≡ some b → a ≡ b
some_same e = cc

none-some : {b : ℕ} → none ≡ some b → ⊥
none-some e = cc

scan-append :
    (base : ℕ) (xs ys : Bytes) (n : ℕ) {m : ℕ}
    → scan base xs n ≡ some m
    → scan base (xs ++ ys) n ≡ scan base ys m
unfolding scan
scan-append base [] ys n h = ap (scan base ys) (some_same h)
scan-append base (x ∷ xs) ys n {m} h =
    go (in_base base (digit_value x)) refl (λ k. scan-append base xs ys k)
  where
    go :
        (o : Option ℕ)
        → in_base base (digit_value x) ≡ o
        → ((k : ℕ) → scan base xs k ≡ some m → scan base (xs ++ ys) k ≡ scan base ys m)
        → scan base ((x ∷ xs) ++ ys) n ≡ scan base ys m
    go none e ih = absurd (none-some {b = m} (rw (e, scan) at h))
    go (some d) e ih = rw (e, scan) (ih (n * base + d) (rw (e, scan) at h))

pub digit_value-digit :
    (base d : ℕ) → base ≤ 36 → d < base → in_base base (digit_value (digit d)) ≡ some d
digit_value-digit base d h k = ground arith

scan-digit :
    (base d : ℕ) (cs : Bytes) (n : ℕ)
    → base ≤ 36
    → d < base
    → scan base (digit d ∷ cs) n ≡ scan base cs (n * base + d)
unfolding scan
scan-digit base d cs n h k = rw (digit_value-digit base d h k, scan)

-- A number is read back from its digits, in a base whose division shrinks.
module _ (base : ℕ) (small : base ≤ 36) (two : 2 ≤ base)
    (shrinks : (v : ℕ) → base ≤ v → v / base < v) (whole : (v : ℕ) → v / base * base + v % base ≡ v)
    (digits : (v : ℕ) → v % base < base) where
  end : {n m : ℕ} → n ≡ m → scan base [] n ≡ some m
  unfolding scan
  end e = ap some e

  scan-numeral : (fuel v : ℕ) → v ≤ fuel → scan base (numeral base fuel v) 0 ≡ some v
  unfolding numeral
  scan-numeral zero v h = scan-digit base v [] 0 small (omega arith) ∙ end (omega arith)
  scan-numeral (suc fuel) v h = elim (Bool-cases (ltb v base)) [
    | inl one ↦ rw one (scan-digit base v [] 0 small (ground arith) ∙ end (omega arith))
    | inr more ↦
        let ih = scan-numeral fuel (v / base) (omega (arith, shrinks v (ground arith))) in
        rw more (
          scan-append base (numeral base fuel (v / base)) (digit (v % base) ∷ []) 0 ih
          ∙ scan-digit base (v % base) [] (v / base) small (digits v)
          ∙ end (whole v))
  ]

-- A byte that a digit can be; no blank, no sign, no colon and no semicolon is one.
abbrev pub IsWord : ℕ → Type 0
IsWord c = (48 ≤ c) × (c ≤ 122) × (c ≢ b':') × (c ≢ b';')

digit-IsWord : (d : ℕ) → d < 36 → IsWord (digit d)
digit-IsWord d h = (ground arith, ground arith, ground arith, ground arith)

numeral-IsWord :
    (base : ℕ)
    → base ≤ 36
    → ((v : ℕ) → v % base < base)
    → (fuel v : ℕ) → v ≤ fuel
    → ((w : ℕ) → base ≤ w → w / base < w)
    → 1 ≤ base
    → All IsWord (numeral base fuel v)
unfolding numeral
numeral-IsWord base small digits zero v h shrinks lo = (digit-IsWord v (omega arith), tt)
numeral-IsWord base small digits (suc fuel) v h shrinks lo = elim (Bool-cases (ltb v base)) [
  | inl one ↦ rw one (digit-IsWord v (ground arith), tt)
  | inr more ↦ rw more (
      All-append IsWord (numeral base fuel (v / base)) (digit (v % base) ∷ [])
        (numeral-IsWord base small digits fuel (v / base) (omega (arith, shrinks v (ground arith)))
          shrinks lo)
        (digit-IsWord (v % base) (omega (arith, digits v)), tt))
]

pub decimal-IsWord : (v : ℕ) → All IsWord (decimal v)
decimal-IsWord v =
    numeral-IsWord 10 (omega arith) (λ w. omega arith) v v (omega arith) (λ w h. omega arith)
      (omega arith)

pub hex-IsWord : (v : ℕ) → All IsWord (hex v)
hex-IsWord v =
    numeral-IsWord 16 (omega arith) (λ w. omega arith) v v (omega arith) (λ w h. omega arith)
      (omega arith)

snoc-ne-nil : (xs : Bytes) (y : ℕ) → xs ++ (y ∷ []) ≢ []
snoc-ne-nil [] y e = cc
snoc-ne-nil (x ∷ xs) y e = cc

pub numeral-ne-nil : (base fuel v : ℕ) → numeral base fuel v ≢ []
unfolding numeral
numeral-ne-nil base zero v = λ e. cc
numeral-ne-nil base (suc fuel) v = elim (Bool-cases (ltb v base)) [
  | inl one ↦ rw one (λ e. cc)
  | inr more ↦ rw more (snoc-ne-nil (numeral base fuel (v / base)) (digit (v % base)))
]

-- A word of digits has no sign.
parse_int-scan :
    (base : ℕ) (s : Bytes) (v : ℕ)
    → All IsWord s
    → s ≢ []
    → scan base s 0 ≡ some v
    → v < 2 ^ 63
    → parse_int base s ≡ some (pos v)
unfolding parse_int parse_digits
parse_int-scan base [] v w ne e h = absurd (ne refl)
parse_int-scan base (c ∷ cs) v ((lo, hi, _, _), w) ne e h =
    let minus : (c == b'-') ≡ false = ground arith in
    let plus : (c == b'+') ≡ false = ground arith in
    let fits : ltb v (2 ^ 63) ≡ true = ground arith in rw (minus, plus, e, fits)

-- `Atoi` of what `%d` prints.
pub atoi-decimal : (v : ℕ) → v < 2 ^ 63 → atoi (decimal v) ≡ some (pos v)
unfolding atoi
atoi-decimal v h =
    parse_int-scan 10 (decimal v) v (decimal-IsWord v) (numeral-ne-nil 10 v v)
      (scan-numeral 10 (omega arith) (omega arith) (λ w k. omega arith) (λ w. omega arith)
        (λ w. omega arith) v v (omega arith))
      h

-- `ParseInt` in base 16 of what `%x` prints.
pub parse_int-hex : (v : ℕ) → v < 2 ^ 63 → parse_int 16 (hex v) ≡ some (pos v)
parse_int-hex v h =
    parse_int-scan 16 (hex v) v (hex-IsWord v) (numeral-ne-nil 16 v v)
      (scan-numeral 16 (omega arith) (omega arith) (λ w k. omega arith) (λ w. omega arith)
        (λ w. omega arith) v v (omega arith))
      h
