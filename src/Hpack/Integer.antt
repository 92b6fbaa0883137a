-- ===== src/Hpack/Integer.antt =====
-- `encodeInteger` (pkg/hpack/encode.go) and `decodeInteger` (pkg/hpack/decode.go): integers with an
-- n-bit prefix (RFC 7541, 5.1). A value is a uint64; a reader is the list of bytes still unread.
pub mod Encoding
pub mod Decoding
pub mod RoundTrip
use gtest.Common.{
  ℕ, ◌+◌, ◌-◌, ◌*◌, ◌/◌, ◌%◌, ◌^◌, ◌<◌, Bool, true, false, ◌||◌, List, [], ◌∷◌, ◌++◌, ltb, leb,
  ◌==◌, if◌then◌else◌, Bytes, bit_and, bit_or, Result, ok, err, Acc, dite, dec_lt, lt_wf, arith,
}

-- `bad_prefix` is "invalid prefix length", `eof` what reading past the end answers, `overflow`
-- "integer overflow".
pub data IntegerError : Type 0 where
  bad_prefix eof overflow : IntegerError

abbrev pub is_bad_prefix : ℕ → Bool
is_bad_prefix n = ltb n 1 || ltb 8 n

-- `byte(max)`, the mask of the prefix.
abbrev pub prefix_max : ℕ → ℕ
prefix_max n = 2 ^ n - 1

abbrev shift_shrinks : (v : ℕ) → 127 < v → v / 128 < v
shift_shrinks v h = omega arith

-- The loop `for value >= 128`, and the byte behind it.
unfoldable pub encode_rest : Bytes → (v : ℕ) → Acc ◌<◌ v → Bytes
encode_rest buf v (Acc.intro _ smaller) =
    dite (dec_lt 127 v)
      (λ more.
        encode_rest (buf ++ (bit_or (bit_and v 0x7f) 0x80 % 256 ∷ [])) (v / 128)
          (smaller (v / 128) (shift_shrinks v more)))
      (λ _. buf ++ (v % 256 ∷ []))

unfoldable pub encode_integer : Bytes → ℕ → ℕ → ℕ → Result IntegerError Bytes
encode_integer buf n prefix v =
    if is_bad_prefix n
    then err bad_prefix
    else if ltb v (prefix_max n)
    then ok (buf ++ (bit_or prefix (v % 256) ∷ []))
    else let rest = v - prefix_max n in
      ok (encode_rest (buf ++ (bit_or prefix (prefix_max n % 256) ∷ [])) rest (lt_wf.apply rest))

-- What a read answers, and the bytes it leaves unread, also when it fails.
abbrev pub Read : Type 0 → Type 0 → Type 0
Read E A = Result E A × Bytes

-- `value += uint64(b&0x7f) << m`, where m is at most 63.
abbrev pub add_group : ℕ → ℕ → ℕ → ℕ
add_group value b m = (value + bit_and b 0x7f * 2 ^ m % 2 ^ 64) % 2 ^ 64

-- The loop over the continuation bytes.
unfoldable pub decode_rest : Bytes → ℕ → ℕ → Read IntegerError ℕ
decode_rest [] value m = (err eof, [])
decode_rest (b ∷ rest) value m =
    let value' = add_group value b m in
    let more = decode_rest rest value' (m + 7) in
    if bit_and b 0x80 == 0
    then (ok value', rest)
    else if ltb 63 (m + 7)
    then (err overflow, rest)
    else more

unfoldable pub decode_prefix : Bytes → ℕ → Read IntegerError ℕ
unfolding decode_rest
decode_prefix [] n = (err eof, [])
decode_prefix (b ∷ rest) n =
    let value = bit_and b (prefix_max n % 256) in
    if ltb value (prefix_max n) then (ok value, rest) else decode_rest rest value 0

unfoldable pub decode_integer : Bytes → ℕ → Read IntegerError ℕ
unfolding decode_prefix
decode_integer buf n = if is_bad_prefix n then (err bad_prefix, buf) else decode_prefix buf n
