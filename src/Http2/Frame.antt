-- ===== src/Http2/Frame.antt =====
-- pkg/http2/frame.go: frames and their payloads. A writer is the bytes written, and does not fail; a
-- reader is the list of bytes that it has yet to deliver, at whose end reading fails.
pub mod Header
pub mod Truncation
pub mod Settings
pub mod Payloads
use gtest.Common.{
  ℕ, ◌+◌, ◌*◌, ◌/◌, ◌%◌, ◌^◌, Bool, true, false, not, List, [], ◌∷◌, ◌++◌, ◌==◌, ltb, if◌then◌else◌,
  Bytes, length, take, drop, bit_and, bit_or, Result, ok, err, ◌>>=◌,
}

abbrev pub frame_data : ℕ
frame_data = 0x0

abbrev pub frame_headers : ℕ
frame_headers = 0x1

abbrev pub frame_priority : ℕ
frame_priority = 0x2

abbrev pub frame_rst_stream : ℕ
frame_rst_stream = 0x3

abbrev pub frame_settings : ℕ
frame_settings = 0x4

abbrev pub frame_push_promise : ℕ
frame_push_promise = 0x5

abbrev pub frame_ping : ℕ
frame_ping = 0x6

abbrev pub frame_go_away : ℕ
frame_go_away = 0x7

abbrev pub frame_window_update : ℕ
frame_window_update = 0x8

abbrev pub frame_continuation : ℕ
frame_continuation = 0x9

abbrev pub flag_none : ℕ
flag_none = 0x0

abbrev pub flag_ack : ℕ
flag_ack = 0x1

abbrev pub flag_end_stream : ℕ
flag_end_stream = 0x1

abbrev pub flag_end_headers : ℕ
flag_end_headers = 0x4

abbrev pub frame_header_len : ℕ
frame_header_len = 9

-- `Flags.Has`
unfoldable pub has : ℕ → ℕ → Bool
has f flag = not (bit_and f flag == 0)

-- `length` and `stream_id` are uint32, the others one byte.
pub record FrameHeader : Type 0 where
  pub length_field : ℕ
  pub kind : ℕ
  pub flags : ℕ
  pub stream_id : ℕ

pub record Frame : Type 0 where
  pub header : FrameHeader
  pub payload : Bytes

-- `binary.BigEndian.PutUint32` and `PutUint16`.
abbrev pub put_uint32 : ℕ → Bytes
put_uint32 v = (v / 2 ^ 24 % 256) ∷ (v / 2 ^ 16 % 256) ∷ (v / 2 ^ 8 % 256) ∷ (v % 256) ∷ []

abbrev pub put_uint16 : ℕ → Bytes
put_uint16 v = (v / 2 ^ 8 % 256) ∷ (v % 256) ∷ []

-- `binary.BigEndian.Uint32` and `Uint16`.
abbrev pub uint32 : ℕ → ℕ → ℕ → ℕ → ℕ
uint32 a b c d = bit_or (bit_or (bit_or (a * 2 ^ 24) (b * 2 ^ 16)) (c * 2 ^ 8)) d

abbrev pub uint16 : ℕ → ℕ → ℕ
uint16 a b = bit_or (a * 2 ^ 8) b

-- The three bytes of a length.
abbrev put_uint24 : ℕ → Bytes → Bytes
put_uint24 v rest = (v / 2 ^ 16 % 256) ∷ (v / 2 ^ 8 % 256) ∷ (v % 256) ∷ rest

unfoldable pub write_frame_header : FrameHeader → Bytes
write_frame_header h =
    put_uint24 h.length_field (h.kind ∷ h.flags ∷ put_uint32 (bit_and h.stream_id 0x7FFFFFFF))

pub data FrameError : Type 0 where
  header_too_short end_of_input bad_settings : FrameError

unfoldable pub parse_frame_header : Bytes → Result FrameError FrameHeader
parse_frame_header (l0 ∷ l1 ∷ l2 ∷ t ∷ f ∷ s0 ∷ s1 ∷ s2 ∷ s3 ∷ rest) = ok (record {
  length_field = bit_or (bit_or (l0 * 2 ^ 16) (l1 * 2 ^ 8)) l2;
  kind = t;
  flags = f;
  stream_id = bit_and (uint32 s0 s1 s2 s3) 0x7FFFFFFF;
})
parse_frame_header _ = err header_too_short

-- `io.ReadFull` of n bytes.
unfoldable pub read_full : ℕ → Bytes → Result FrameError (Bytes × Bytes)
read_full n r = if ltb (length r) n then err end_of_input else ok (take n r, drop n r)

unfoldable pub read_frame_header : Bytes → Result FrameError (FrameHeader × Bytes)
unfolding read_full
read_frame_header r = do
  (buf, rest) ← read_full frame_header_len r
  h ← parse_frame_header buf
  ok (h, rest)

-- The length field is set from the payload.
unfoldable pub write_frame : Frame → Bytes
write_frame f =
    write_frame_header (record f.header { length_field = length f.payload % 2 ^ 32 }) ++ f.payload

-- The payload, which is read only if its length is not 0.
abbrev pub read_payload : ℕ → Bytes → Result FrameError (Bytes × Bytes)
read_payload n r = if ltb 0 n then read_full n r else ok ([], r)

unfoldable pub read_frame : Bytes → Result FrameError (Frame × Bytes)
read_frame r = do
  (h, rest) ← read_frame_header r
  (payload, rest') ← read_payload h.length_field rest
  ok (record { header = h; payload = payload }, rest')

-- A frame with every field as given: the length may not be the payload's, and the reserved bit of
-- the stream identifier is not cleared.
unfoldable pub write_raw_frame : ℕ → ℕ → ℕ → ℕ → Bytes → Bytes
write_raw_frame len kind flags stream_id payload =
    put_uint24 len (kind ∷ flags ∷ put_uint32 stream_id) ++ payload

pub record Setting : Type 0 where
  pub id : ℕ
  pub value : ℕ

-- `make([]byte, len(settings)*6)` and the loop that fills it.
unfoldable pub settings_payload : List Setting → Bytes
settings_payload [] = []
settings_payload (s ∷ ss) = put_uint16 s.id ++ (put_uint32 s.value ++ settings_payload ss)

abbrev pub frame : ℕ → ℕ → ℕ → Bytes → Frame
frame kind flags stream_id payload = record {
  header = record {
    length_field = length payload % 2 ^ 32;
    kind = kind;
    flags = flags;
    stream_id = stream_id;
  };
  payload = payload;
}

unfoldable pub write_settings_frame : ℕ → Bool → List Setting → Bytes
write_settings_frame stream_id ack settings = write_frame (
    frame frame_settings (if ack then flag_ack else flag_none) stream_id
      (settings_payload settings))

-- The loop over the entries of six bytes.
unfoldable pub settings_loop : Bytes → List Setting
settings_loop (i0 ∷ i1 ∷ v0 ∷ v1 ∷ v2 ∷ v3 ∷ rest) =
    record { id = uint16 i0 i1; value = uint32 v0 v1 v2 v3 } ∷ settings_loop rest
settings_loop _ = []

unfoldable pub parse_settings_frame : Bytes → Result FrameError (List Setting)
parse_settings_frame payload =
    if not (length payload % 6 == 0) then err bad_settings else ok (settings_loop payload)

unfoldable pub write_data_frame : ℕ → Bytes → Bool → Bytes
write_data_frame stream_id bytes end_stream =
    write_frame
      (frame frame_data (if end_stream then flag_end_stream else flag_none) stream_id bytes)

-- `flags |= …`, one flag after the other.
unfoldable pub headers_flags : Bool → Bool → ℕ
headers_flags end_stream end_headers =
    let flags = if end_stream then bit_or flag_none flag_end_stream else flag_none in
    if end_headers then bit_or flags flag_end_headers else flags

unfoldable pub write_headers_frame : ℕ → Bytes → Bool → Bool → Bytes
write_headers_frame stream_id block end_stream end_headers =
    write_frame (frame frame_headers (headers_flags end_stream end_headers) stream_id block)

unfoldable pub write_rst_stream_frame : ℕ → ℕ → Bytes
write_rst_stream_frame stream_id error_code =
    write_frame (frame frame_rst_stream flag_none stream_id (put_uint32 error_code))

-- `content` is the array of eight bytes.
unfoldable pub write_ping_frame : Bool → Bytes → Bytes
write_ping_frame ack content =
    write_frame (frame frame_ping (if ack then flag_ack else flag_none) 0 content)

unfoldable pub write_go_away_frame : ℕ → ℕ → Bytes → Bytes
write_go_away_frame last_stream_id error_code debug = write_frame (
    frame frame_go_away flag_none 0
      (put_uint32 (bit_and last_stream_id 0x7FFFFFFF) ++ (put_uint32 error_code ++ debug)))

unfoldable pub write_window_update_frame : ℕ → ℕ → Bytes
write_window_update_frame stream_id increment =
    write_frame
      (frame frame_window_update flag_none stream_id (put_uint32 (bit_and increment 0x7FFFFFFF)))
