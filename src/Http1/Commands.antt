-- ===== src/Http1/Commands.antt =====
-- pkg/http1/commands.go: raw bytes out and in, and the decompression of a body.
use gtest.Common.{
  ℕ, ◌+◌, ◌*◌, ◌/◌, ◌%◌, ◌≡◌, refl, ap, Bool, ◌||◌, Bool-cases, inl, inr, [], ◌∷◌, ◌++◌, Option,
  none, some, ◌==◌, if◌then◌else◌, Bytes, IsByte, All, length, ℤ, Result, ok, err, arith,
}
use gtest.Common.Numerals.{digit, digit_value, in_base, digit_value-digit}
use gtest.Http1.{Http}
use gtest.Http1.Input.{HttpError, bad_hex, gunzip_failed, read_bytes}

unfoldable pub send : Http → Bytes → Http
send h bytes = record h { sent = h.sent ++ bytes }

-- `ReplaceAll(s, c, "")` of one byte.
unfoldable pub without : ℕ → Bytes → Bytes
without c [] = []
without c (d ∷ s) = let rest = without c s in if d == c then rest else d ∷ rest

-- `hex.DecodeString`
abbrev pub hex_byte : Option ℕ → Option ℕ → Option Bytes → Option Bytes
hex_byte (some h) (some l) (some s) = some ((h * 16 + l) ∷ s)
hex_byte _ _ _ = none

unfoldable pub decode_hex : Bytes → Option Bytes
decode_hex [] = some []
decode_hex (h ∷ []) = none
decode_hex (h ∷ l ∷ s) =
    hex_byte (in_base 16 (digit_value h)) (in_base 16 (digit_value l)) (decode_hex s)

abbrev pub send_or_fail : Http → Option Bytes → Result HttpError Http
send_or_fail h none = err bad_hex
send_or_fail h (some bytes) = ok (send h bytes)

unfoldable pub send_hex : Http → Bytes → Result HttpError Http
unfolding without decode_hex send
send_hex h s = send_or_fail h (decode_hex (without b'\t' (without b'\n' (without b' ' s))))

-- `Recv`: the bytes, and what is left.
unfoldable pub recv : Http → ℤ → Result HttpError Bytes × Http
unfolding read_bytes
recv h n = let (result, rest) = read_bytes n h.received in (result, record h { received = rest })

-- `gzip.Reader`: `none` is an error.
abbrev pub decompressed : Http → Option Bytes → Result HttpError Http
decompressed h none = err gunzip_failed
decompressed h (some b) = ok (record h { body = b; body_len = length b })

unfoldable pub gunzip : (Bytes → Option Bytes) → Http → Result HttpError Http
gunzip decompress h = if length h.body == 0 then ok h else decompressed h (decompress h.body)

-- The blanks that are taken out.
abbrev pub is_hex_blank : ℕ → Bool
is_hex_blank c = c == b' ' || c == b'\n' || c == b'\t'

-- The text of bytes, two digits for each.
unfoldable pub hex_text : Bytes → Bytes
hex_text [] = []
hex_text (b ∷ bs) = digit (b / 16) ∷ digit (b % 16) ∷ hex_text bs

-- The bytes of a text that are no blanks.
unfoldable pub dense : Bytes → Bytes
dense [] = []
dense (c ∷ s) = let rest = dense s in if is_hex_blank c then rest else c ∷ rest

without-dense : (s : Bytes) → without b'\t' (without b'\n' (without b' ' s)) ≡ dense s
unfolding without dense
without-dense [] = refl
without-dense (c ∷ s) = elim (Bool-cases (c == b' ')) [
  | inl e ↦ rw e (without-dense s)
  | inr e ↦ elim (Bool-cases (c == b'\n')) [
    | inl k ↦ rw (e, k) (without-dense s)
    | inr k ↦ elim (Bool-cases (c == b'\t')) [
      | inl l ↦ rw (e, k, l) (without-dense s)
      | inr l ↦ rw (e, k, l) (ap (λ t. c ∷ t) (without-dense s))
    ]
  ]
]

decode_hex-hex_text : (bs : Bytes) → All IsByte bs → decode_hex (hex_text bs) ≡ some bs
unfolding decode_hex hex_text
decode_hex-hex_text [] h = refl
decode_hex-hex_text (b ∷ bs) (h, hs) =
    let whole : b / 16 * 16 + b % 16 ≡ b = omega arith in
    rw (
      digit_value-digit 16 (b / 16) (omega arith) (omega arith),
      digit_value-digit 16 (b % 16) (omega arith) (omega arith),
      decode_hex-hex_text bs hs,
      whole,
    )

-- `SendHex` of a text whose bytes, but for blanks, tabs and line feeds in any places, are the two
-- hexadecimal digits of each of some bytes sends these bytes.
pub send_hex-hex_text :
    (h : Http) (bs text : Bytes)
    → All IsByte bs
    → dense text ≡ hex_text bs
    → send_hex h text ≡ ok (record h { sent = h.sent ++ bs })
unfolding send_hex send
send_hex-hex_text h bs text p e = rw (without-dense text, e, decode_hex-hex_text bs p)
