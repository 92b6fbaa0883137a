-- ===== src/Http2/Frame/Payloads.antt =====
-- The frame writers of pkg/http2/frame.go whose payload is a header block or some numbers: what a
-- reader gets.
use gtest.Common.{ℕ, ◌%◌, ◌^◌, ◌<◌, ◌≡◌, refl, Bool, true, false, ◌++◌, Bytes, length, ok}
use gtest.Http2.Frame.{
  Frame, frame, frame_headers, flag_end_stream, flag_end_headers, has, headers_flags,
  write_headers_frame, read_frame,
}
use gtest.Http2.Frame.Header.{read-write_frame}

headers_flags-has :
    (s h : Bool)
    → (has (headers_flags s h) flag_end_stream ≡ s) × (has (headers_flags s h) flag_end_headers ≡ h)
unfolding has headers_flags
headers_flags-has true true = (refl, refl)
headers_flags-has true false = (refl, refl)
headers_flags-has false true = (refl, refl)
headers_flags-has false false = (refl, refl)

-- A reader of a HEADERS frame with a block below 2 ^ 24 bytes gets the block, the low 31 bits of
-- the stream identifier, and both flags as they were asked for.
pub read-write_headers_frame :
    (stream_id : ℕ) (block rest : Bytes) (end_stream end_headers : Bool)
    → length block < 2 ^ 24
    → (f : Frame) × (read_frame (write_headers_frame stream_id block end_stream end_headers ++ rest)
        ≡ ok (f, rest))
      × (f.header.kind ≡ frame_headers)
      × (f.header.stream_id ≡ stream_id % 2 ^ 31)
      × (f.payload ≡ block)
      × (has f.header.flags flag_end_stream ≡ end_stream)
      × (has f.header.flags flag_end_headers ≡ end_headers)
unfolding write_headers_frame
read-write_headers_frame stream_id block rest s h fits =
    let (one, two) = headers_flags-has s h in
    (
      _,
      read-write_frame (frame frame_headers (headers_flags s h) stream_id block) rest fits,
      refl,
      refl,
      refl,
      one,
      two,
    )
