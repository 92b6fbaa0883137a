-- ===== src/Http2/Commands/Frames.antt =====
-- pkg/http2/frame_commands.go: commands that send one frame, or raw bytes. What the connection's loop
-- handles of itself is not waited for: `RxPing`, `RxGoAway` and `RxWinup` only log and answer zeros.
use gtest.Common.{
  ℕ, ◌*◌, Bool, List, [], ◌∷◌, ◌++◌, Option, none, some, ◌==◌, if◌then◌else◌, Bytes, length,
  bit_and, bit_or, Result,
}
use gtest.Common.Maps.{insert, number_key}
use gtest.Http1.Commands.{without, decode_hex}
use gtest.Http2.Frame.{
  frame, frame_priority, frame_push_promise, frame_continuation, flag_none, flag_end_headers,
  put_uint32, write_frame, write_raw_frame, write_ping_frame, write_go_away_frame,
  write_rst_stream_frame, write_window_update_frame,
}
use gtest.Http2.Stream.{Stream, wait, get}
use gtest.Http2.Conn.{Conn, ConnError, Settings, send_preface, receive_preface, send_settings}
use gtest.Http2.Commands.{invalid_hex, Commanded, done, failed, on_stream, waited}

abbrev pub write : Conn → Bytes → Conn
write c bs = record c { written = c.written ++ bs }

unfoldable pub tx_pri : Conn → Conn
tx_pri c = send_preface c

-- The reader behind the preface.
unfoldable pub rx_pri : Bytes → Result ConnError Bytes
rx_pri r = receive_preface r

-- The loop over the given settings; `nil` has none.
unfoldable pub put_settings : Settings → Settings → Settings
put_settings m [] = m
put_settings m ((i, v) ∷ ss) = put_settings (insert i v m) ss

unfoldable pub tx_settings : Conn → Bool → Settings → Conn
unfolding send_settings put_settings
tx_settings c ack settings =
    send_settings (record c { local_settings = put_settings c.local_settings settings }) ack

-- A copy of the remote settings, after a pause.
unfoldable pub rx_settings : Conn → Settings
rx_settings c = c.remote_settings

unfoldable pub tx_ping : Conn → Bool → Bytes → Conn
tx_ping c ack content = write c (write_ping_frame ack content)

unfoldable pub tx_go_away : Conn → ℕ → ℕ → Bytes → Conn
tx_go_away c last_stream_id error_code debug =
    write c (write_go_away_frame last_stream_id error_code debug)

unfoldable pub tx_rst : Conn → ℕ → ℕ → Conn
tx_rst c i error_code = write c (write_rst_stream_frame i error_code)

unfoldable pub rx_rst : Conn → ℕ → Commanded
rx_rst c i = on_stream c (get c.streams i) (λ s. waited c i (wait s))

unfoldable pub tx_winup : Conn → ℕ → ℕ → Conn
tx_winup c i increment = write c (write_window_update_frame i increment)

abbrev sent_or_failed : Conn → Option Bytes → Commanded
sent_or_failed c none = (c, failed invalid_hex)
sent_or_failed c (some bs) = (write c bs, done)

unfoldable pub send_hex : Conn → Bytes → Commanded
unfolding without decode_hex
send_hex c text =
    sent_or_failed c
      (decode_hex (without b'\t' (without b'\r' (without b'\n' (without b' ' text)))))

unfoldable pub write_raw : Conn → ℕ → ℕ → ℕ → ℕ → Bytes → Conn
write_raw c len kind flags i payload = write c (write_raw_frame len kind flags i payload)

abbrev pub zeros : ℕ → Bytes
zeros ℕ.zero = []
zeros (ℕ.suc n) = 0 ∷ zeros n

-- Four bytes of the promised stream, and ten zeros for each header.
unfoldable pub push_promise_payload : ℕ → List Bytes → Bytes
push_promise_payload promised headers =
    put_uint32 (bit_and promised 0x7FFFFFFF) ++ zeros (length headers * 10)

unfoldable pub tx_push_promise : Conn → ℕ → ℕ → List Bytes → Conn
tx_push_promise c i promised headers = write c (
    write_frame
      (frame frame_push_promise flag_end_headers i (push_promise_payload promised headers)))

unfoldable pub tx_continuation : Conn → ℕ → Bytes → Bool → Conn
tx_continuation c i block end_headers = write c (
    write_frame
      (frame frame_continuation (if end_headers then flag_end_headers else flag_none) i block))

unfoldable pub priority_payload : Bool → ℕ → ℕ → Bytes
priority_payload exclusive depends_on weight =
    let dependency = bit_and depends_on 0x7FFFFFFF in
    put_uint32 (if exclusive then bit_or dependency 0x80000000 else dependency) ++ (weight ∷ [])

unfoldable pub tx_priority : Conn → ℕ → Bool → ℕ → ℕ → Conn
tx_priority c i exclusive depends_on weight =
    write c (
      write_frame (frame frame_priority flag_none i (priority_payload exclusive depends_on weight)))

unfoldable pub set_enforce_flow_control : Conn → Bool → Conn
set_enforce_flow_control c enforce = record c { enforced_fc = enforce }

-- A window, in the 32 bits of an int32; 0 where there is no such stream.
abbrev window_of : (Stream → ℕ) → Option Stream → ℕ
window_of window none = 0
window_of window (some s) = window s

unfoldable pub get_send_window : Conn → ℕ → ℕ
get_send_window c i =
    if i == 0 then c.send_window else window_of (λ s. s.send_window) (get c.streams i)

unfoldable pub get_recv_window : Conn → ℕ → ℕ
get_recv_window c i =
    if i == 0 then c.recv_window else window_of (λ s. s.recv_window) (get c.streams i)
