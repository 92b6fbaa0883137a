-- ===== src/Hpack/Text.antt =====
-- `encodeString` (pkg/hpack/encode.go) and `decodeString` (pkg/hpack/decode.go): length-prefixed
-- strings (RFC 7541, 5.2), with no Huffman coding in either direction.
use gtest.Common.{
  ℕ, ◌%◌, ◌^◌, ◌≤◌, ◌<◌, ◌≡◌, refl, ap, ◌∙◌, Bool, false, [], ◌∷◌, ◌++◌, append_assoc, ltb,
  if◌then◌else◌, Bytes, length, length-append, take, drop, take_append, drop_append, length-drop,
  Result, ok, err, ◌>>=◌, arith,
}
use gtest.Hpack.Integer.{IntegerError, eof, Read, encode_integer, decode_integer}
use gtest.Hpack.Integer.Encoding.{integer, encode_integer-integer}
use gtest.Hpack.Integer.Decoding.{decode_integer_shrinks}
use gtest.Hpack.Integer.RoundTrip.{decode_integer-integer}

-- `short_read` is `io.ReadFull` at too few bytes, `make_panic` the panic of `make([]byte, length)`.
pub data TextError : Type 0 where
  integer_error : IntegerError → TextError
  short_read make_panic : TextError

-- The longest slice of bytes that the Go runtime allocates on a 64-bit system; `make` panics above.
abbrev pub max_alloc : ℕ
max_alloc = 2 ^ 48

-- `huffman` is cleared before it is used.
unfoldable pub encode_string : Bytes → Bytes → Bool → Result IntegerError Bytes
encode_string buf s huffman = encode_integer buf 7 0 (length s % 2 ^ 64) >>= λ buf'. ok (buf' ++ s)

-- `make` and `io.ReadFull` at a length.
unfoldable pub read_full : ℕ → Bytes → Read TextError Bytes
read_full n buf =
    if ltb max_alloc n
    then (err make_panic, buf)
    else if ltb (length buf) n
    then (err short_read, [])
    else (ok (take n buf), drop n buf)

abbrev pub read_text : Read IntegerError ℕ → Read TextError Bytes
read_text (ok n, rest) = read_full n rest
read_text (err e, rest) = (err (integer_error e), rest)

-- The top bit of the first byte, the Huffman flag, changes nothing.
unfoldable pub decode_string : Bytes → Read TextError Bytes
unfolding read_full
decode_string [] = (err (integer_error eof), [])
decode_string (b ∷ rest) = read_text (decode_integer (b ∷ rest) 7)

-- The encoding of a string.
abbrev pub text : Bytes → Bytes
text s = integer 7 0 (length s) ++ s

pub encode_string-text :
    (buf s : Bytes) (huffman : Bool)
    → length s < 2 ^ 64
    → encode_string buf s huffman ≡ ok (buf ++ text s)
unfolding encode_string
encode_string-text buf s huffman h =
    let fits : length s % 2 ^ 64 ≡ length s = omega arith in
    rw (fits, encode_integer-integer buf 7 0 (length s) (omega arith) (omega arith) h)
      (ap ok (append_assoc buf (integer 7 0 (length s)) s))

read_full_append :
    (s rest : Bytes) → length s ≤ max_alloc → read_full (length s) (s ++ rest) ≡ (ok s, rest)
unfolding read_full
read_full_append s rest h =
    let small : ltb max_alloc (length s) ≡ false = ground arith in
    let enough : ltb (length (s ++ rest)) (length s) ≡ false =
      ground (arith, length-append s rest) in
    rw (small, enough, take_append, drop_append)

decode_string-read_text : (buf : Bytes) → decode_string buf ≡ read_text (decode_integer buf 7)
unfolding decode_string decode_integer
decode_string-read_text [] = refl
decode_string-read_text (b ∷ rest) = refl

-- The reader of the encoding.
pub decode_string-text :
    (s rest : Bytes) → length s ≤ max_alloc → decode_string (text s ++ rest) ≡ (ok s, rest)
decode_string-text s rest h =
    decode_string-read_text (text s ++ rest)
    ∙ rw
        (
          append_assoc (integer 7 0 (length s)) s rest,
          decode_integer-integer 7 0 (length s) (s ++ rest) (omega arith) (omega arith)
              (omega arith),
        )
        (read_full_append s rest h)

read_text_shrinks : (r : Read IntegerError ℕ) → length (read_text r).1 ≤ length r.1
unfolding read_full
read_text_shrinks (ok n, rest) = ground (arith, length-drop n rest)
read_text_shrinks (err e, rest) = omega arith

-- Success or not, no byte is given back.
pub decode_string_shrinks : (buf : Bytes) → length (decode_string buf).1 ≤ length buf
unfolding decode_string
decode_string_shrinks [] = omega arith
decode_string_shrinks (b ∷ rest) = omega (
  arith,
  read_text_shrinks (decode_integer (b ∷ rest) 7),
  decode_integer_shrinks b rest 7 (omega arith) (omega arith),
)

-- For a string of at most `max_alloc` bytes, `encodeString` keeps the buffer and appends some bytes,
-- the same with and without the Huffman flag, from which `decodeString` reads it back, whatever follows.
pub decode-encode_string :
    (buf s rest : Bytes)
    → length s ≤ max_alloc
    → (e : Bytes) × ((huffman : Bool) → encode_string buf s huffman ≡ ok (buf ++ e))
      × (decode_string (e ++ rest) ≡ (ok s, rest))
decode-encode_string buf s rest h =
    (text s, λ huffman. encode_string-text buf s huffman (omega arith), decode_string-text s rest h)
