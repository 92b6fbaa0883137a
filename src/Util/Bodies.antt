-- ===== src/Util/Bodies.antt =====
-- `GenerateBody` of pkg/util/string.go.
use gtest.Common.{
  ℕ, zero, suc, ◌+◌, ◌-◌, ◌≤◌, ◌≡◌, refl, ap, ◌∙◌, [], ◌∷◌, ◌++◌, append-nil, append_assoc, some,
  ltb, leb, Bool-cases, true, false, inl, inr, Bytes, length, length-append, take, take_past, pos,
  arith,
}
use gtest.Util.{generate_loop, generate_body, pattern_or_default}

-- A text so many times over.
unfoldable pub repeated : ℕ → Bytes → Bytes
repeated zero p = []
repeated (suc n) p = p ++ repeated n p

take_within : (n : ℕ) (xs ys : Bytes) → n ≤ length xs → take n (xs ++ ys) ≡ take n xs
take_within zero xs ys h = refl
take_within (suc n) [] ys h = absurd (omega arith)
take_within (suc n) (x ∷ xs) ys h = ap (◌∷◌ x) (take_within n xs ys (omega arith))

length-take : (n : ℕ) (xs : Bytes) → n ≤ length xs → length (take n xs) ≡ n
length-take zero xs h = refl
length-take (suc n) [] h = absurd (omega arith)
length-take (suc n) (x ∷ xs) h = omega (arith, length-take n xs (omega arith))

generate_loop-full :
    (fuel len : ℕ) (p buf : Bytes) → len ≤ length buf → generate_loop fuel len p buf ≡ buf
unfolding generate_loop
generate_loop-full zero len p buf h = refl
generate_loop-full (suc fuel) len p buf h =
    let full : ltb (length buf) len ≡ false = ground arith in rw full refl

generate_loop-repeated :
    (fuel len r : ℕ) (p buf : Bytes)
    → 1 ≤ length p
    → length buf + r ≡ len
    → r ≤ fuel
    → generate_loop fuel len p buf ≡ buf ++ take r (repeated fuel p)
unfolding generate_loop repeated
generate_loop-repeated fuel len zero p buf lo e h =
    generate_loop-full fuel len p buf (omega arith) ∙ rw (append-nil buf) refl
generate_loop-repeated (suc fuel) len (suc r) p buf lo e h =
    let L = length p in
    let more : ltb (length buf) len ≡ true = ground arith in
    let left : len - length buf ≡ suc r = omega arith in
    elim (Bool-cases (leb L (suc r))) [
      | inl fits ↦
          let split : suc r ≡ L + (suc r - L) = ground arith in
          let ih =
            generate_loop-repeated fuel len (suc r - L) p (buf ++ p) lo
              (ground (arith, length-append buf p)) (ground arith) in
          let cut : take (suc r) (p ++ repeated fuel p) ≡ p ++ take (suc r - L) (repeated fuel p) =
            ap (λ i. take i (p ++ repeated fuel p)) split
            ∙ take_past p (repeated fuel p) (suc r - L) in
          rw (more, left, fits, cut) (ih ∙ append_assoc buf p (take (suc r - L) (repeated fuel p)))
      | inr short ↦
          let within : suc r ≤ L = ground arith in
          let full : len ≤ length (buf ++ take (suc r) p) =
            omega (arith, length-append buf (take (suc r) p), length-take (suc r) p within) in
          rw (more, left, short, take_within (suc r) p (repeated fuel p) within)
            (generate_loop-full fuel len p (buf ++ take (suc r) p) full)
    ]
generate_loop-repeated zero len (suc r) p buf lo e h = absurd (omega arith)

length-repeated : (n : ℕ) (p : Bytes) → 1 ≤ length p → n ≤ length (repeated n p)
unfolding repeated
length-repeated zero p lo = omega arith
length-repeated (suc n) p lo = omega (arith, length-append p (repeated n p), length-repeated n p lo)

pattern_or_default-length : (p : Bytes) → 1 ≤ length (pattern_or_default p)
pattern_or_default-length [] = omega arith
pattern_or_default-length (c ∷ cs) = omega arith

-- At a length that is not negative `GenerateBody` gives a body of that length, the beginning of the
-- pattern, or of "X" in place of an empty one, repeated.
pub generate_body-repeated :
    (n : ℕ) (p : Bytes)
    → (b : Bytes) × (generate_body (pos n) p ≡ some b)
      × (length b ≡ n)
      × (b ≡ take n (repeated n (pattern_or_default p)))
unfolding generate_body
generate_body-repeated n p =
    let d = pattern_or_default p in
    let lo = pattern_or_default-length p in
    let same : n ≤ n = omega arith in
    let body = generate_loop-repeated n n n d [] lo (omega arith) same in
    (
      take n (repeated n d),
      ap some body,
      length-take n (repeated n d) (length-repeated n d lo),
      refl,
    )
