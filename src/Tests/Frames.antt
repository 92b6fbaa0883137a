-- ===== src/Tests/Frames.antt =====
-- pkg/http2/frame.go at concrete frames.
use gtest.Common.{
  ℕ, zero, suc, ◌%◌, ◌^◌, ◌≡◌, refl, ap, List, [], ◌∷◌, ◌++◌, Bytes, length, codes, ok, arith,
}
use gtest.Http2.Frame.{Frame, Setting, frame, frame_data, flag_end_stream, write_frame, read_frame}
use gtest.Http2.Frame.Header.{read-write_frame, read-write_frame_oversized}

-- A DATA frame on stream 3, with END_STREAM.
abbrev data_frame : Frame
data_frame = frame frame_data flag_end_stream 3 (codes "hello")

read-write_frame_example :
    read_frame (write_frame data_frame ++ (1 ∷ []))
    ≡ ok (frame frame_data flag_end_stream (3 % 2 ^ 31) (codes "hello"), 1 ∷ [])
read-write_frame_example = read-write_frame data_frame (1 ∷ []) (omega arith)

-- A payload of zeros.
unfoldable zeros : ℕ → Bytes
zeros zero = []
zeros (suc n) = 0 ∷ zeros n

length-zeros : (n : ℕ) → length (zeros n) ≡ n
unfolding zeros
length-zeros zero = refl
length-zeros (suc n) = ap suc (length-zeros n)

-- 2 ^ 24 bytes, one more than a frame can announce.
oversized : length (zeros (2 ^ 24)) % 2 ^ 24 ≡ 0
oversized = ap (λ n. n % 2 ^ 24) (length-zeros (2 ^ 24))

read-write_frame_oversized_example :
    read_frame (write_frame (frame frame_data 0 3 (zeros (2 ^ 24))))
    ≡ ok (frame frame_data 0 (3 % 2 ^ 31) [], zeros (2 ^ 24))
read-write_frame_oversized_example =
    read-write_frame_oversized (frame frame_data 0 3 (zeros (2 ^ 24))) oversized

abbrev settings : List Setting
settings = record { id = 1; value = 8192 } ∷ record { id = 4; value = 70000 } ∷ []
