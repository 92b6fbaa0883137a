-- ===== src/Tests/Http2.antt =====
-- pkg/http2/stream.go and pkg/http2/conn.go at concrete streams and connections.
use gtest.Common.{
  ℕ, ◌+◌, ◌%◌, ◌^◌, ◌≡◌, refl, Bool, true, false, not, ◌&&◌, List, [], ◌∷◌, ◌++◌, none, some, ◌==◌,
  if◌then◌else◌, Bytes, bytes_eq, codes, ok, arith,
}
use gtest.Common.Maps.{lookup, number_key}
use gtest.Hpack.Static.{HeaderField, field, size, static_table}
use gtest.Hpack.Table.{search, search_dynamic, find_from, add, evict, evict_loop}
use gtest.Hpack.Table.Exact.{new_dynamic_table-IsExact}
use gtest.Hpack.Encode.{
  Encoder, new_encoder, encode, encode_fields, encode_field, encode_match, encode_indexed,
  encode_literal_with_indexing_new_name,
}
use gtest.Hpack.Integer.{encode_integer}
use gtest.Hpack.Text.{encode_string}
use gtest.Http2.Frame.{
  Frame, Setting, frame, frame_ping, flag_none, write_headers_frame, write_window_update_frame,
  read_frame,
}
use gtest.Http2.Stream.{
  Stream, StreamManager, open_, new_stream, new_stream_manager, next_state, get,
}
use gtest.Http2.Stream.States.{
  Event, view, observe, run, ended, is_closed, view-next_state, run-closed,
}
use gtest.Http2.Conn.{Conn, new_conn}
use gtest.Http2.Conn.Handlers.{process_frame}
use gtest.Http2.Conn.Sending.{target}
use gtest.Http2.Conn.Delivery.{IsDelivered, write_headers_frame-IsDelivered}
use gtest.Http2.Conn.Receiving.{
  widened, process-write_window_update_frame, after_updates, total, after_updates-total,
}

abbrev stream : Stream
stream = new_stream 1 (codes "s1")

abbrev event : Bool → Bool → Event
event e s = record { end_stream = e; sending = s }

-- A request with its end, and the response in two frames.
abbrev exchange : List Event
exchange = event true true ∷ event false false ∷ event true false ∷ []

run-closed_example :
    is_closed (run stream exchange).state ≡ (ended true exchange && ended false exchange)
unfolding new_stream
run-closed_example = run-closed stream exchange refl

view-next_state_example :
    view (next_state open_ true false) ≡ observe (view open_) (event true false)
view-next_state_example = view-next_state open_ (event true false) tt

abbrev fields : List HeaderField
fields = field (codes ":method") (codes "GET") ∷ field (codes "x-id") (codes "1") ∷ []

abbrev streams : StreamManager
streams = new_stream_manager

abbrev conn : Conn
conn = new_conn false

abbrev settings : List Setting
settings = record { id = 1; value = 8192 } ∷ []

Answers : Conn → Bytes → Type 0
Answers c content =
    (reply : Bytes) × (answer : Frame) × (process_frame c (frame frame_ping flag_none 0 content)
      ≡ (record c { spawned = c.spawned ++ (reply ∷ []) }, none))
    × (read_frame (reply ++ []) ≡ ok (answer, []))
    × (answer.payload ≡ content)
    × (process_frame conn answer ≡ (conn, none))

Grows : Conn → ℕ → ℕ → ℕ → Type 0
Grows c sid increment j =
    (f : Frame) × (read_frame (write_window_update_frame sid increment ++ []) ≡ ok (f, []))
    × (process_frame c f ≡ (
      record c {
        send_window =
            if sid == 0 then (c.send_window + increment % 2 ^ 31) % 2 ^ 32 else c.send_window;
        streams = (process_frame c f).0.streams;
      },
      none,
    ))
    × (get (process_frame c f).0.streams j ≡ (
        if not (sid == 0) && (sid == j)
        then widened (increment % 2 ^ 31) (get c.streams j)
        else get c.streams j))

abbrev streaming : Conn
streaming = record conn { streams = (1, stream) ∷ [] }

process-write_window_update_frame_example : Grows streaming 1 1000 1
unfolding Grows
process-write_window_update_frame_example =
    process-write_window_update_frame streaming 1 1000 [] 1 (omega arith)

-- Two increments that take the window past 2 ^ 32.
abbrev increments : List ℕ
increments = 0x7FFFFFFF ∷ 0x7FFFFFFF ∷ []

stream_there : get streaming.streams 1 ≡ some stream
unfolding get lookup
stream_there = refl

after_updates-total_example :
    get (after_updates streaming 1 increments).streams 1
    ≡ some (record stream { send_window = (stream.send_window + total increments) % 2 ^ 32 })
after_updates-total_example =
    after_updates-total streaming 1 stream increments refl (unfold new_stream in omega arith)
      stream_there

abbrev encoder : Encoder
encoder = new_encoder 4096

Arrives : Encoder → List HeaderField → Type 0
Arrives e' hs =
    (f : Frame) × (s : Stream) × (read_frame (write_headers_frame 1 e'.buf true true ++ [])
      ≡ ok (f, []))
    × ((process_frame conn f).1 ≡ none)
    × (get (process_frame conn f).0.streams 1 ≡ some s)
    × IsDelivered hs true (target conn 1) s
    × ((process_frame conn f).0.decoder ≡ e'.table)

abbrev encoded : Encoder
encoded = record {
  table = record {
    entries = field (codes "x-id") (codes "1") ∷ [];
    total_size = 37;
    max_size = 4096;
  };
  buf = 0x82 ∷ 0x40 ∷ 4 ∷ (codes "x-id" ++ (1 ∷ codes "1"));
}

encode-encoded : encode encoder fields ≡ ok encoded
unfolding encode encode_fields encode_field encode_match search search_dynamic find_from
    static_table bytes_eq encode_indexed encode_literal_with_indexing_new_name encode_integer
    encode_string add evict evict_loop size
encode-encoded = refl

write_headers_frame-IsDelivered_example : Arrives encoded fields
unfolding Arrives new_conn
write_headers_frame-IsDelivered_example =
    write_headers_frame-IsDelivered conn encoder encoded fields 1 true true [] refl
      (new_dynamic_table-IsExact 4096 (omega arith)) (omega arith, (omega arith, tt)) encode-encoded
      (omega arith) (omega arith)
