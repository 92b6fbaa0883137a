-- ===== src/Http2/Frame/Header.antt =====
-- The frame header and whole frames of pkg/http2/frame.go, written and read back.
use gtest.Common.{
  ℕ, ◌+◌, ◌*◌, ◌/◌, ◌%◌, ◌^◌, ◌<◌, ◌≡◌, refl, ◌∙◌, false, true, [], ◌∷◌, ◌++◌, ltb, append_assoc,
  Bytes, length, length-append, take_append, drop_append, bit_and, bit_or, ok, err, arith,
}
use gtest.Common.Bits.Masks.{bit_and_low, bit_or_disjoint}
use gtest.Http2.Frame.{
  Frame, frame, end_of_input, put_uint32, put_uint16, uint32, uint16, write_frame_header,
  parse_frame_header, read_full, read_frame_header, write_frame, read_frame, read_payload,
  write_raw_frame,
}

or_24 :
    (a b c : ℕ)
    → b < 256
    → c < 256
    → bit_or (bit_or (a * 2 ^ 16) (b * 2 ^ 8)) c ≡ a * 2 ^ 16 + b * 2 ^ 8 + c
or_24 a b c hb hc =
    let high : bit_or (a * 2 ^ 16) (b * 2 ^ 8) ≡ (a * 256 + b) * 2 ^ 8 =
      omega (arith, bit_or_disjoint 16 a (b * 2 ^ 8) (omega arith)) in
    rw high (omega (arith, bit_or_disjoint 8 (a * 256 + b) c hc))

or_32 :
    (a b c d : ℕ)
    → b < 256
    → c < 256
    → d < 256
    → uint32 a b c d ≡ a * 2 ^ 24 + b * 2 ^ 16 + c * 2 ^ 8 + d
or_32 a b c d hb hc hd =
    let two : bit_or (a * 2 ^ 24) (b * 2 ^ 16) ≡ (a * 256 + b) * 2 ^ 16 =
      omega (arith, bit_or_disjoint 24 a (b * 2 ^ 16) (omega arith)) in
    rw two (omega (arith, or_24 (a * 256 + b) c d hc hd))

-- Four bytes hold a uint32, and two a uint16.
pub uint32-put :
    (v : ℕ)
    → v < 2 ^ 32
    → uint32 (v / 2 ^ 24 % 256) (v / 2 ^ 16 % 256) (v / 2 ^ 8 % 256) (v % 256) ≡ v
uint32-put v h =
    or_32 (v / 2 ^ 24 % 256) (v / 2 ^ 16 % 256) (v / 2 ^ 8 % 256) (v % 256) (omega arith)
      (omega arith) (omega arith)
    ∙ omega arith

pub uint16-put : (v : ℕ) → v < 2 ^ 16 → uint16 (v / 2 ^ 8 % 256) (v % 256) ≡ v
uint16-put v h = bit_or_disjoint 8 (v / 2 ^ 8 % 256) (v % 256) (omega arith) ∙ omega arith

-- And back: the bytes of a number put together from bytes.
pub put-uint32 :
    (a b c d : ℕ)
    → a < 256
    → b < 256
    → c < 256
    → d < 256
    → put_uint32 (uint32 a b c d) ≡ a ∷ b ∷ c ∷ d ∷ []
put-uint32 a b c d ha hb hc hd = rw (or_32 a b c d hb hc hd) (ground arith)

pub put-uint16 : (a b : ℕ) → a < 256 → b < 256 → put_uint16 (uint16 a b) ≡ a ∷ b ∷ []
put-uint16 a b ha hb = rw (bit_or_disjoint 8 a b hb) (ground arith)

-- The stream identifier with the reserved bit cleared.
pub clear_reserved : (v : ℕ) → bit_and v 0x7FFFFFFF ≡ v % 2 ^ 31
clear_reserved v = bit_and_low 31 v

header_parts :
    (len kind flags sid : ℕ)
    → sid < 2 ^ 32
    → parse_frame_header
        ((len / 2 ^ 16 % 256) ∷ (len / 2 ^ 8 % 256) ∷ (len % 256) ∷ kind ∷ flags ∷ put_uint32 sid)
      ≡ ok (record {
        length_field = len % 2 ^ 24;
        kind = kind;
        flags = flags;
        stream_id = sid % 2 ^ 31;
      })
unfolding parse_frame_header
header_parts len kind flags sid h =
    let long =
      or_24 (len / 2 ^ 16 % 256) (len / 2 ^ 8 % 256) (len % 256) (omega arith) (omega arith) in
    let three : len / 2 ^ 16 % 256 * 2 ^ 16 + len / 2 ^ 8 % 256 * 2 ^ 8 + len % 256 ≡ len % 2 ^ 24 =
      omega arith in
    rw (long, three, uint32-put sid h, clear_reserved sid)

read_full_append :
    (n : ℕ) (xs rest : Bytes) → length xs ≡ n → read_full n (xs ++ rest) ≡ ok (xs, rest)
unfolding read_full
read_full_append n xs rest e =
    let enough : ltb (length (xs ++ rest)) (length xs) ≡ false =
      ground (arith, length-append xs rest) in
    rw (← e, enough, take_append, drop_append)

pub read_full_short : (n : ℕ) (xs : Bytes) → length xs < n → read_full n xs ≡ err end_of_input
unfolding read_full
read_full_short n xs h = ground arith

read_payload_append :
    (n : ℕ) (xs rest : Bytes) → length xs ≡ n → read_payload n (xs ++ rest) ≡ ok (xs, rest)
read_payload_append n [] rest e = rw (← e)
read_payload_append n (x ∷ xs) rest e =
    let some : ltb 0 n ≡ true = ground arith in rw (some, read_full_append n (x ∷ xs) rest e)

unfoldable pub header_bytes : ℕ → ℕ → ℕ → ℕ → Bytes
header_bytes len kind flags sid =
    (len / 2 ^ 16 % 256) ∷ (len / 2 ^ 8 % 256) ∷ (len % 256) ∷ kind ∷ flags ∷ put_uint32 sid

pub read_frame_header_append :
    (len kind flags sid : ℕ) (rest : Bytes)
    → sid < 2 ^ 32
    → read_frame_header (header_bytes len kind flags sid ++ rest)
      ≡ ok (
        record {
          length_field = len % 2 ^ 24;
          kind = kind;
          flags = flags;
          stream_id = sid % 2 ^ 31;
        },
        rest,
      )
unfolding read_frame_header header_bytes
read_frame_header_append len kind flags sid rest h = rw (
  read_full_append 9 (header_bytes len kind flags sid) rest refl,
  header_parts len kind flags sid h,
)

-- A raw frame with a uint32 stream identifier, whose length field agrees modulo 2 ^ 24 with its
-- payload, is read back as it was given, but for the reserved bit, and what follows it is left.
pub read-write_raw_frame :
    (len kind flags sid : ℕ) (payload rest : Bytes)
    → sid < 2 ^ 32
    → length payload ≡ len % 2 ^ 24
    → read_frame (write_raw_frame len kind flags sid payload ++ rest)
      ≡ ok (
        record {
          header = record {
            length_field = len % 2 ^ 24;
            kind = kind;
            flags = flags;
            stream_id = sid % 2 ^ 31;
          };
          payload = payload;
        },
        rest,
      )
unfolding read_frame write_raw_frame header_bytes
read-write_raw_frame len kind flags sid payload rest h e = rw (
  append_assoc (header_bytes len kind flags sid) payload rest,
  read_frame_header_append len kind flags sid (payload ++ rest) h,
  read_payload_append (len % 2 ^ 24) payload rest e,
)

-- A frame with a payload below 2 ^ 24 bytes is read back as it was written, with the length field
-- that its payload gives and the reserved bit of the stream identifier cleared, and what follows
-- it is left.
pub read-write_frame :
    (f : Frame) (rest : Bytes)
    → length f.payload < 2 ^ 24
    → read_frame (write_frame f ++ rest)
      ≡ ok (frame f.header.kind f.header.flags (f.header.stream_id % 2 ^ 31) f.payload, rest)
unfolding write_frame write_frame_header
read-write_frame f rest h =
    let sid = bit_and f.header.stream_id 0x7FFFFFFF in
    let low : sid ≡ f.header.stream_id % 2 ^ 31 = clear_reserved f.header.stream_id in
    let len : length f.payload % 2 ^ 32 % 2 ^ 24 ≡ length f.payload % 2 ^ 32 = omega arith in
    let once : sid % 2 ^ 31 ≡ f.header.stream_id % 2 ^ 31 = omega arith in
    unfold write_raw_frame in
    read-write_raw_frame (length f.payload % 2 ^ 32) f.header.kind f.header.flags sid f.payload rest
      (omega arith) (omega arith)
    ∙ rw (once, len)

-- A frame with a payload of a multiple of 2 ^ 24 bytes is written with length 0, and a reader
-- takes the payload for what follows the frame.
pub read-write_frame_oversized :
    (f : Frame)
    → length f.payload % 2 ^ 24 ≡ 0
    → read_frame (write_frame f)
      ≡ ok (frame f.header.kind f.header.flags (f.header.stream_id % 2 ^ 31) [], f.payload)
unfolding write_frame write_frame_header
read-write_frame_oversized f h =
    let sid = bit_and f.header.stream_id 0x7FFFFFFF in
    let low : sid ≡ f.header.stream_id % 2 ^ 31 = clear_reserved f.header.stream_id in
    let len : length f.payload % 2 ^ 32 % 2 ^ 24 ≡ 0 = omega arith in
    let once : sid % 2 ^ 31 ≡ f.header.stream_id % 2 ^ 31 = omega arith in
    unfold write_raw_frame in
    read-write_raw_frame (length f.payload % 2 ^ 32) f.header.kind f.header.flags sid [] f.payload
      (omega arith) (omega arith)
    ∙ rw (once, len)
