-- ===== src/Http1/Generated.antt =====
-- The bodies that `GenerateBody` of pkg/http1/txreq.go makes, byte for byte.
use gtest.Common.{
  ℕ, zero, suc, ◌+◌, ◌-◌, ◌/◌, ◌%◌, ◌<◌, ◌≡◌, refl, sym, ap, ◌∙◌, Bool, true, false, Bool-cases,
  inl, inr, [], ◌∷◌, some, ◌==◌, if◌then◌else◌, Bytes, length, get_elem?, arith,
}
use gtest.Http1.Send.{next_byte, generate_from, generate_body}

-- The character whose turn it is: from `!` to `~`, where a line feed does not count.
abbrev turn : ℕ → ℕ
turn i = b'!' + (i - i / 64) % 94

-- The byte at a place, made from the place alone.
abbrev pub byte_at : Bool → ℕ → ℕ
byte_at random i =
    if i % 64 == 63 then b'\n' else if random then b'!' + i % 72 else b'!' + (i - i / 64) % 94

next_byte-turn : (i : ℕ) → (i % 64 == 63) ≡ false → next_byte (turn i) ≡ turn (i + 1)
next_byte-turn i h = ground arith

turn-line_end : (i : ℕ) → (i % 64 == 63) ≡ true → turn (i + 1) ≡ turn i
turn-line_end i h = ground arith

-- The bytes of `n` places from the place `i`.
generated : Bool → ℕ → ℕ → Bytes
generated random zero i = []
generated random (suc n) i = byte_at random i ∷ generated random n (i + 1)

generate_from-generated :
    (random : Bool) (n i k : ℕ)
    → (random ≡ false → k ≡ turn i)
    → generate_from random n i k ≡ generated random n i
unfolding generate_from generated
generate_from-generated random zero i k h = refl
generate_from-generated false (suc n) i k h = elim (Bool-cases (i % 64 == 63)) [
  | inl e ↦
      let rest =
        generate_from-generated false n (i + 1) k (λ _. h refl ∙ sym (turn-line_end i e)) in
      rw (e, rest)
  | inr e ↦
      let rest =
        generate_from-generated false n (i + 1) (next_byte k)
          (λ _. ap next_byte (h refl) ∙ next_byte-turn i e) in
      rw (e, rest, h refl)
]
generate_from-generated true (suc n) i k h =
    let small : (b'!' + i % 72 % 256) % 256 ≡ b'!' + i % 72 = omega arith in
    elim (Bool-cases (i % 64 == 63)) [
      | inl e ↦ let rest = generate_from-generated true n (i + 1) k (λ f. absurd cc) in rw (e, rest)
      | inr e ↦
          let rest =
            generate_from-generated true n (i + 1) (next_byte (b'!' + i % 72)) (λ f. absurd cc) in
          rw (e, small, rest)
    ]

generated-get :
    (random : Bool) (n i j : ℕ)
    → j < n
    → get_elem? (generated random n i) j ≡ some (byte_at random (i + j))
unfolding generated
generated-get random zero i j h = absurd (omega arith)
generated-get random (suc n) i zero h =
    let same : i ≡ i + 0 = omega arith in ap (λ j. some (byte_at random j)) same
generated-get random (suc n) i (suc j) h =
    let same : i + 1 + j ≡ i + suc j = omega arith in
    generated-get random n (i + 1) j (omega arith) ∙ ap (λ j. some (byte_at random j)) same

length-generated : (random : Bool) (n i : ℕ) → length (generated random n i) ≡ n
unfolding generated
length-generated random zero i = refl
length-generated random (suc n) i = ap suc (length-generated random n (i + 1))

-- A generated body has the length that was asked for, and at each place before its end the byte that
-- the place alone says: a line feed at the end of each 64, and the printable characters in turn or, at
-- random, one of 72 by the place.
pub generate_body-byte_at :
    (n i : ℕ) (random : Bool)
    → i < n
    → (length (generate_body n random) ≡ n)
      × (get_elem? (generate_body n random) i ≡ some (byte_at random i))
unfolding generate_body
generate_body-byte_at n i random h =
    let made = generate_from-generated random n 0 b'!' (λ _. refl) in
    let same : 0 + i ≡ i = omega arith in
    rw made (
      length-generated random n 0,
      generated-get random n 0 i h ∙ ap (λ j. some (byte_at random j)) same,
    )
