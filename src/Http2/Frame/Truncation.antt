-- ===== src/Http2/Frame/Truncation.antt =====
-- `ReadFrame` of pkg/http2/frame.go on a frame that is cut off.
use gtest.Common.{
  ℕ, ◌+◌, ◌-◌, ◌%◌, ◌^◌, ◌<◌, ◌≡◌, refl, ap, ◌∙◌, ◌++◌, true, ltb, Bool-cases, inl, inr, Bytes,
  bit_and, length, length-take_lt, take, take_past, err, arith,
}
use gtest.Http2.Frame.{
  Frame, end_of_input, read_payload, read_frame_header, read_frame, write_frame, write_frame_header,
}
use gtest.Http2.Frame.Header.{
  read_full_short, header_bytes, read_frame_header_append, clear_reserved,
}

read_frame_header_short : (r : Bytes) → length r < 9 → read_frame_header r ≡ err end_of_input
unfolding read_frame_header
read_frame_header_short r h = rw (read_full_short 9 r h)

read_payload_short : (n : ℕ) (xs : Bytes) → length xs < n → read_payload n xs ≡ err end_of_input
read_payload_short n xs h =
    let some : ltb 0 n ≡ true = ground arith in rw (some, read_full_short n xs h)

read_frame_short_payload :
    (len kind flags sid : ℕ) (part : Bytes)
    → sid < 2 ^ 32
    → length part < len % 2 ^ 24
    → read_frame (header_bytes len kind flags sid ++ part) ≡ err end_of_input
unfolding read_frame
read_frame_short_payload len kind flags sid part h e =
    rw (read_frame_header_append len kind flags sid part h, read_payload_short _ part e)

read_frame_short_header : (r : Bytes) → length r < 9 → read_frame r ≡ err end_of_input
unfolding read_frame
read_frame_short_header r h = rw (read_frame_header_short r h)

write_frame_bytes :
    (f : Frame)
    → write_frame f
      ≡ header_bytes
          (length f.payload % 2 ^ 32)
          f.header.kind
          f.header.flags
          (bit_and f.header.stream_id 0x7FFFFFFF)
        ++ f.payload
unfolding write_frame write_frame_header header_bytes
write_frame_bytes f = refl

-- A reader that gets only a part of a frame with less than 2 ^ 24 bytes of payload, be it cut off in
-- the header or in the payload, answers the end of the input, never a shorter frame.
pub read_frame_truncated :
    (f : Frame) (k : ℕ)
    → length f.payload < 2 ^ 24
    → k < 9 + length f.payload
    → read_frame (take k (write_frame f)) ≡ err end_of_input
unfolding header_bytes
read_frame_truncated f k h short =
    let sid = bit_and f.header.stream_id 0x7FFFFFFF in
    let low : sid ≡ f.header.stream_id % 2 ^ 31 = clear_reserved f.header.stream_id in
    let len = length f.payload % 2 ^ 32 in
    let head = header_bytes len f.header.kind f.header.flags sid in
    elim (Bool-cases (ltb k 9)) [
      | inl early ↦ rw (write_frame_bytes f) (
          read_frame_short_header (take k (head ++ f.payload))
            (length-take_lt k (head ++ f.payload) (ground arith)))
      | inr late ↦
          let split : k ≡ 9 + (k - 9) = ground arith in
          let cut : take k (head ++ f.payload) ≡ head ++ take (k - 9) f.payload =
            ap (λ i. take i (head ++ f.payload)) split ∙ take_past head f.payload (k - 9) in
          rw (write_frame_bytes f, cut)
            (read_frame_short_payload len f.header.kind f.header.flags sid (take (k - 9) f.payload)
              (omega arith) (length-take_lt (k - 9) f.payload (ground arith)))
    ]
