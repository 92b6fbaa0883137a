-- ===== src/Http2/Commands/Writing.antt =====
-- The frames that pkg/http2/frame_commands.go writes itself: PRIORITY, PUSH_PROMISE and CONTINUATION.
use gtest.Common.{
  ℕ, ◌+◌, ◌*◌, ◌%◌, ◌^◌, ◌<◌, ◌≡◌, refl, ◌∙◌, Bool, true, false, List, [], ◌∷◌, ◌++◌, if◌then◌else◌,
  Bytes, length, bit_and, bit_or, ok, arith, none,
}
use gtest.Common.Bits.Masks.{bit_or_comm, bit_or_disjoint}
use gtest.Http2.Frame.{
  Frame, frame, frame_priority, frame_push_promise, flag_none, flag_end_headers, uint32, read_frame,
  write_frame,
}
use gtest.Http2.Frame.Header.{read-write_frame, uint32-put, clear_reserved}
use gtest.Http2.Conn.{Conn}
use gtest.Http2.Conn.Handlers.{process_frame}
use gtest.Http2.Commands.Frames.{
  priority_payload, tx_priority, push_promise_payload, tx_push_promise, zeros,
}

-- The 31 bits of the stream it depends on, and the exclusive bit.
dependency :
    (exclusive : Bool) (depends_on : ℕ)
    → (if exclusive
        then bit_or (bit_and depends_on 0x7FFFFFFF) 0x80000000
        else bit_and depends_on 0x7FFFFFFF)
      ≡ (if exclusive then 1 else 0) * 2 ^ 31 + depends_on % 2 ^ 31
dependency true d = omega (
  arith,
  bit_or_comm (bit_and d 0x7FFFFFFF) 0x80000000,
  bit_or_disjoint 31 1 (bit_and d 0x7FFFFFFF) (omega (arith, clear_reserved d)),
  clear_reserved d,
)
dependency false d = omega (arith, clear_reserved d)

dependency_small :
    (exclusive : Bool) (d : ℕ) → (if exclusive then 1 else 0) * 2 ^ 31 + d % 2 ^ 31 < 2 ^ 32
dependency_small true d = omega arith
dependency_small false d = omega arith

-- `TxPriority` writes one frame, of five bytes: a reader finds the exclusive bit, the low 31 bits of the
-- stream it depends on, the weight, and the low 31 bits of the stream. `processFrame` drops it.
pub tx_priority-read :
    (c d : Conn) (i : ℕ) (exclusive : Bool) (depends_on weight : ℕ) (rest : Bytes)
    → (bytes : Bytes) × (f : Frame) × (b0 : ℕ) × (b1 : ℕ) × (b2 : ℕ) × (b3 : ℕ) × ((tx_priority c i
          exclusive depends_on weight).written
        ≡ c.written ++ bytes)
      × (read_frame (bytes ++ rest) ≡ ok (f, rest))
      × (f.header.kind ≡ frame_priority)
      × (f.header.stream_id ≡ i % 2 ^ 31)
      × (f.payload ≡ b0 ∷ b1 ∷ b2 ∷ b3 ∷ weight ∷ [])
      × (uint32 b0 b1 b2 b3 ≡ (if exclusive then 1 else 0) * 2 ^ 31 + depends_on % 2 ^ 31)
      × (process_frame d f ≡ (d, none))
unfolding tx_priority priority_payload process_frame
tx_priority-read c d i exclusive depends_on weight rest =
    let f = frame frame_priority flag_none i (priority_payload exclusive depends_on weight) in
    (
      write_frame f,
      frame frame_priority flag_none (i % 2 ^ 31) (priority_payload exclusive depends_on weight),
      _,
      _,
      _,
      _,
      refl,
      read-write_frame f rest (omega arith),
      refl,
      refl,
      refl,
      uint32-put _ (rw (dependency exclusive depends_on) (dependency_small exclusive depends_on))
          ∙ dependency exclusive depends_on,
      refl,
    )

length-zeros : (n : ℕ) → length (zeros n) ≡ n
length-zeros ℕ.zero = refl
length-zeros (ℕ.suc n) = omega (arith, length-zeros n)

-- For fewer than 2 ^ 20 headers, `TxPushPromise` writes one frame, in which a reader finds the low 31
-- bits of the promised stream, END_HEADERS as its only flag, and as its block ten zeros for each header:
-- the headers themselves make no difference. `processFrame` drops it.
pub tx_push_promise-read :
    (c d : Conn) (i promised : ℕ) (headers : List Bytes) (rest : Bytes)
    → length headers < 2 ^ 20
    → (bytes : Bytes) × (f : Frame) × (b0 : ℕ) × (b1 : ℕ) × (b2 : ℕ) × (b3 : ℕ) × ((tx_push_promise
          c i promised headers).written
        ≡ c.written ++ bytes)
      × (read_frame (bytes ++ rest) ≡ ok (f, rest))
      × (f.header.kind ≡ frame_push_promise)
      × (f.header.flags ≡ flag_end_headers)
      × (f.header.stream_id ≡ i % 2 ^ 31)
      × (f.payload ≡ (b0 ∷ b1 ∷ b2 ∷ b3 ∷ []) ++ zeros (length headers * 10))
      × (uint32 b0 b1 b2 b3 ≡ promised % 2 ^ 31)
      × (process_frame d f ≡ (d, none))
unfolding tx_push_promise push_promise_payload process_frame
tx_push_promise-read c d i promised headers rest few =
    let payload = push_promise_payload promised headers in
    let f = frame frame_push_promise flag_end_headers i payload in
    (
      write_frame f,
      frame frame_push_promise flag_end_headers (i % 2 ^ 31) payload,
      _,
      _,
      _,
      _,
      refl,
      read-write_frame f rest (omega (arith, few, length-zeros (length headers * 10))),
      refl,
      refl,
      refl,
      refl,
      uint32-put _ (omega (arith, clear_reserved promised)) ∙ clear_reserved promised,
      refl,
    )
