-- ===== src/Http2/Conn.antt =====
-- pkg/http2/conn.go: a connection. A handler is one step on the connection; a frame that a handler
-- sends from a goroutine of its own joins `spawned`, which nothing orders after the return.
pub mod Handlers
pub mod Sending
pub mod Receiving
pub mod Delivery
use gtest.Common.{
  ℕ, zero, suc, ◌+◌, ◌*◌, ◌%◌, ◌^◌, Bool, true, false, not, ◌&&◌, ◌||◌, List, [], ◌∷◌, ◌++◌, Option,
  none, some, ◌==◌, ltb, if◌then◌else◌, Bytes, codes, bytes_eq, length, bit_and, Result, ok, err,
}
use gtest.Common.Maps.{lookup, insert, number_key}
use gtest.Hpack.Static.{HeaderField}
use gtest.Hpack.Table.{DynamicTable, set_max_size}
use gtest.Hpack.Encode.{Encoder, Step, new_encoder, set_max_dynamic_table_size}
use gtest.Hpack.Decode.{DecodeError, new_decoder, decode}
use gtest.Http2.Frame.{
  Frame, FrameError, Setting, frame_data, frame_headers, frame_rst_stream, frame_settings,
  frame_ping, frame_go_away, frame_window_update, frame_continuation, flag_ack, flag_end_stream,
  has, parse_settings_frame, write_settings_frame, write_ping_frame, uint32, read_frame, read_full,
}
use gtest.Http2.Stream.{
  Stream, StreamManager, new_stream_manager, closed, update_state, append_req_body, signal,
  add_int32, update_send_window, get, get_or_create, modify,
}
use gtest.Http2.Stream.Headers.{add_req_headers, add_resp_headers}

abbrev pub client_preface : Bytes
client_preface = codes "PRI * HTTP/2.0\r\n\r\nSM\r\n\r\n"

abbrev pub Settings : Type 0
Settings = List (ℕ × ℕ)

-- `stopped` is whether `cancel` was called, `written` what went out on the connection.
pub record Conn : Type 0 where
  pub encoder : Encoder
  pub decoder : DynamicTable
  pub streams : StreamManager
  pub local_settings : Settings
  pub remote_settings : Settings
  pub send_window : ℕ
  pub recv_window : ℕ
  pub next_stream_id : ℕ
  pub is_client : Bool
  pub enforced_fc : Bool
  pub stopped : Bool
  pub written : Bytes
  pub spawned : List Bytes

abbrev pub setting_header_table_size : ℕ
setting_header_table_size = 0x1

abbrev default_settings : Settings
default_settings = (1, 4096) ∷ (2, 1) ∷ (3, 100) ∷ (4, 65535) ∷ (5, 16384) ∷ []

unfoldable pub new_conn : Bool → Conn
new_conn is_client = record {
  encoder = new_encoder 4096;
  decoder = new_decoder 4096;
  streams = new_stream_manager;
  local_settings = default_settings;
  remote_settings = default_settings;
  send_window = 65535;
  recv_window = 65535;
  next_stream_id = if is_client then 1 else 2;
  is_client = is_client;
  enforced_fc = true;
  stopped = false;
  written = [];
  spawned = [];
}

pub data ConnError : Type 0 where
  frame_error : FrameError → ConnError
  decode_error : DecodeError → ConnError
  bad_ping bad_go_away bad_window_update unknown_stream bad_preface : ConnError

-- A handler's answer: the connection, and `nil` or the error.
abbrev pub Handled : Type 0
Handled = Conn × Option ConnError

unfoldable pub send_preface : Conn → Conn
send_preface c = record c { written = c.written ++ client_preface }

-- `io.ReadFull` of the preface's length, and the comparison.
unfoldable pub receive_preface : Bytes → Result ConnError Bytes
receive_preface r = elim (read_full 24 r) [
  | ok (buf, rest) ↦ if bytes_eq buf client_preface then ok rest else err bad_preface
  | err e ↦ err (frame_error e)
]

abbrev pub to_settings : Settings → List Setting
to_settings [] = []
to_settings ((i, v) ∷ m) = record { id = i; value = v } ∷ to_settings m

-- The bytes of `SendSettings`: the local settings, or none behind an acknowledgement.
unfoldable pub settings_bytes : Conn → Bool → Bytes
settings_bytes c ack = write_settings_frame 0 ack (if ack then [] else to_settings c.local_settings)

unfoldable pub send_settings : Conn → Bool → Conn
send_settings c ack = record c { written = c.written ++ settings_bytes c ack }

-- `go func() { … }()` around one write.
abbrev pub spawn : Conn → Bytes → Conn
spawn c bs = record c { spawned = c.spawned ++ (bs ∷ []) }

abbrev pub with_encoder : Conn → Step → Conn
with_encoder c (ok e) = record c { encoder = e }
with_encoder c (err x) = c

unfoldable pub update_setting : Conn → ℕ → ℕ → Conn
update_setting c i v =
    let c' = record c { local_settings = insert i v c.local_settings } in
    if i == setting_header_table_size
    then with_encoder c' (set_max_dynamic_table_size c'.encoder v)
    else c'

-- 0 for a setting that is not there.
abbrev pub value_or_zero : Option ℕ → ℕ
value_or_zero none = 0
value_or_zero (some v) = v

unfoldable pub get_setting : Conn → ℕ → ℕ
get_setting c i = value_or_zero (lookup i c.local_settings)

-- `NextStreamID`, a uint32.
unfoldable pub next_stream_id_of : Conn → Conn × ℕ
next_stream_id_of c =
    (record c { next_stream_id = (c.next_stream_id + 2) % 2 ^ 32 }, c.next_stream_id)
