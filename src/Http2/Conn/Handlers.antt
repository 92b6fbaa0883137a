-- ===== src/Http2/Conn/Handlers.antt =====
-- The frame handlers of pkg/http2/conn.go and `processFrame`, which picks one. Each is one step on the
-- connection.
use gtest.Common.{
  ℕ, Bool, true, false, not, ◌||◌, List, [], ◌∷◌, ◌++◌, Option, none, some, ◌==◌, ltb,
  if◌then◌else◌, Bytes, codes, bytes_eq, length, bit_and, Result, ok, err,
}
use gtest.Common.Maps.{insert, number_key}
use gtest.Common.Numerals.{decimal}
use gtest.Hpack.Static.{HeaderField}
use gtest.Hpack.Table.{DynamicTable, set_max_size}
use gtest.Hpack.Decode.{DecodeError, decode}
use gtest.Http2.Frame.{
  Frame, FrameError, Setting, frame_data, frame_headers, frame_rst_stream, frame_settings,
  frame_ping, frame_go_away, frame_window_update, frame_continuation, flag_ack, flag_end_stream,
  has, parse_settings_frame, write_ping_frame, uint32,
}
use gtest.Http2.Stream.{
  Stream, closed, update_state, append_req_body, signal, add_int32, update_send_window, get,
  get_or_create, modify,
}
use gtest.Http2.Stream.Headers.{add_req_headers, add_resp_headers}
use gtest.Http2.Conn.{
  Settings, Conn, frame_error, decode_error, bad_ping, bad_go_away, bad_window_update,
  unknown_stream, Handled, settings_bytes, spawn, setting_header_table_size,
}

-- The loop over the received settings: the map, and the last header table size.
unfoldable pub apply_settings : Settings → Option ℕ → List Setting → Settings × Option ℕ
apply_settings m size [] = (m, size)
apply_settings m size (s ∷ ss) =
    apply_settings (insert s.id s.value m)
      (if s.id == setting_header_table_size then some s.value else size) ss

abbrev pub resize_decoder : DynamicTable → Option ℕ → DynamicTable
resize_decoder t none = t
resize_decoder t (some size) = set_max_size t size

abbrev pub receive_settings : Conn → Result FrameError (List Setting) → Handled
receive_settings c (err e) = (c, some (frame_error e))
receive_settings c (ok ss) =
    let (m, size) = apply_settings c.remote_settings none ss in
    let c' = record c { remote_settings = m; decoder = resize_decoder c.decoder size } in
    (spawn c' (settings_bytes c' true), none)

unfoldable pub handle_settings : Conn → Frame → Handled
handle_settings c f =
    if has f.header.flags flag_ack
    then (c, none)
    else receive_settings c (parse_settings_frame f.payload)

unfoldable pub handle_ping : Conn → Frame → Handled
handle_ping c f =
    if has f.header.flags flag_ack
    then (c, none)
    else if not (length f.payload == 8)
    then (c, some bad_ping)
    else (spawn c (write_ping_frame true f.payload), none)

unfoldable pub handle_go_away : Conn → Frame → Handled
handle_go_away c f =
    if ltb (length f.payload) 8 then (c, some bad_go_away) else (record c { stopped = true }, none)

-- The window at the increment of a payload of four bytes.
unfoldable pub grow_window : Conn → ℕ → ℕ → Conn
grow_window c stream_id increment =
    if stream_id == 0
    then record c { send_window = add_int32 c.send_window increment }
    else record c { streams = modify c.streams stream_id (λ s. update_send_window s increment) }

unfoldable pub window_increment : Bytes → Option ℕ
window_increment (a ∷ b ∷ c ∷ d ∷ []) = some (bit_and (uint32 a b c d) 0x7FFFFFFF)
window_increment _ = none

unfoldable pub handle_window_update : Conn → Frame → Handled
handle_window_update c f = elim (window_increment f.payload) [
  | none ↦ (c, some bad_window_update)
  | some increment ↦ (grow_window c f.header.stream_id increment, none)
]

-- Whether a field is called ":status".
unfoldable pub is_response : List HeaderField → Bool
is_response [] = false
is_response (hf ∷ hs) = bytes_eq hf.name (codes ":status") || is_response hs

unfoldable pub add_headers : List HeaderField → Stream → Stream
add_headers hs s = if is_response hs then add_resp_headers s hs else add_req_headers s hs

abbrev pub end_stream : Frame → Bool
end_stream f = has f.header.flags flag_end_stream

-- What the headers of a frame do to their stream.
abbrev pub receive_headers : List HeaderField → Bool → Stream → Stream
receive_headers hs ends s = signal (update_state (add_headers hs s) ends false)

abbrev pub finish_headers : Conn → ℕ → Bool → Result DecodeError (List HeaderField) → Handled
finish_headers c i ends (err e) = (c, some (decode_error e))
finish_headers c i ends (ok hs) =
    (record c { streams = modify c.streams i (receive_headers hs ends) }, none)

abbrev pub stream_name : ℕ → Bytes
stream_name i = codes "stream-" ++ decimal i

-- The stream is made before the block is decoded, and stays on an error.
unfoldable pub handle_headers : Conn → Frame → Handled
handle_headers c f =
    let i = f.header.stream_id in
    let m = (get_or_create c.streams i (stream_name i)).0 in
    let (answer, t) = decode c.decoder f.payload in
    finish_headers (record c { streams = m; decoder = t }) i (end_stream f) answer

unfoldable pub handle_data : Conn → Frame → Handled
handle_data c f =
    let i = f.header.stream_id in
    elim (get c.streams i) [
      | none ↦ (c, some unknown_stream)
      | some _ ↦ (
        record c {
          streams =
              modify c.streams i
                (λ s. signal (update_state (append_req_body s f.payload) (end_stream f) false));
        },
        none,
      )
    ]

unfoldable pub handle_rst_stream : Conn → Frame → Handled
handle_rst_stream c f = (
  record c {
    streams = modify c.streams f.header.stream_id (λ s. signal (record s { state = closed }));
  },
  none,
)

unfoldable pub handle_continuation : Conn → Frame → Handled
handle_continuation c f = handle_headers c f

-- The switch of `processFrame`; a frame of any other type is logged and dropped.
unfoldable pub process_frame : Conn → Frame → Handled
process_frame c f =
    let kind = f.header.kind in
    if kind == frame_settings
    then handle_settings c f
    else if kind == frame_ping
    then handle_ping c f
    else if kind == frame_go_away
    then handle_go_away c f
    else if kind == frame_window_update
    then handle_window_update c f
    else if kind == frame_headers
    then handle_headers c f
    else if kind == frame_data
    then handle_data c f
    else if kind == frame_rst_stream
    then handle_rst_stream c f
    else if kind == frame_continuation
    then handle_continuation c f
    else (c, none)
