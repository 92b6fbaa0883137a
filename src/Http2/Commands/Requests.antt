-- ===== src/Http2/Commands/Requests.antt =====
-- A request from one end to the other: `TxReq` of pkg/http2/commands.go, the frames that it writes, and
-- what `processFrame` of the other end makes of them.
use gtest.Common.{
  ℕ, ◌^◌, ◌<◌, ◌≡◌, refl, ap, ◌∙◌, Bool, true, false, ◌||◌, [], ◌++◌, none, some, ◌==◌, ltb, Bytes,
  length, ok, arith, All,
}
use gtest.Hpack.Table.Exact.{IsExact, HasRoom}
use gtest.Hpack.Encode.{Encoder, encode}
use gtest.Http2.Frame.{Frame, write_headers_frame, write_data_frame, read_frame}
use gtest.Http2.Stream.{
  Stream, StreamManager, half_closed_remote, open_, next_state, new_stream, append_req_body,
  update_state, signal, get, modify,
}
use gtest.Http2.Stream.Headers.{add_req_headers, request}
use gtest.Http2.Stream.Manager.{get_or_create_fresh}
use gtest.Http2.Conn.{Conn}
use gtest.Http2.Conn.Handlers.{process_frame, receive_headers, stream_name}
use gtest.Http2.Conn.Sending.{
  target, process-write_headers_frame, receive_data, process-write_data_frame,
}
use gtest.Http2.Commands.{
  TxReqOptions, Commanded, done, tx_req, req_fields, header_block, send_headers, send_data,
  send_message, with_stream,
}
use gtest.Http2.Commands.Recording.{
  IsRegular, request_of, taken, receive_headers-taken, taken_lem, taken_kept,
}

target_fresh :
    (c : Conn) (i : ℕ) → get c.streams i ≡ none → target c i ≡ new_stream i (stream_name i)
target_fresh c i e =
    ap (λ (r : StreamManager × Stream). r.1) (get_or_create_fresh c.streams i (stream_name i) e)

tx_req_step :
    (k : Conn) (i : ℕ) (o : TxReqOptions) (e : Encoder)
    → o.hpack_instructions ≡ []
    → encode k.encoder (req_fields o) ≡ ok e
    → let k' = with_stream k i in
      tx_req k i o ≡ (
        send_message append_req_body
            (record k' {
              encoder = e;
              streams = modify k'.streams i (λ s. add_req_headers s (req_fields o));
            })
            i
            e.buf
            o.body
            o.end_stream,
        done,
      )
unfolding tx_req header_block
tx_req_step k i o e none_given sent = rw (none_given, header_block, sent)

-- The flag of the HEADERS frame.
abbrev pub ends_with_headers : TxReqOptions → Bool
ends_with_headers o = o.end_stream || (length o.body == 0)

send_message-ends :
    (append_body : Stream → Bytes → Stream) (k : Conn) (i : ℕ) (block body : Bytes)
    (end_stream : Bool)
    → (end_stream || (length body == 0)) ≡ true
    → send_message append_body k i block body end_stream ≡ send_headers k i block true
unfolding send_message
send_message-ends append_body k i block body end_stream h = ground (arith, h)

-- A request without explicit instructions whose headers carry END_STREAM, because it is asked for or
-- because there is no body: where the two tables are equal and exact, the fields' sizes fit uint32
-- with the table's limit, the block is below 2 ^ 24 bytes, no header's name begins with a colon, and
-- the stream has 31 bits and is new to the receiver, `TxReq` succeeds and writes one frame, which the
-- receiver takes without error. Its new stream has the method, path, scheme and authority, all the
-- fields in order, no body, whatever body the options have, and is half closed and signalled; the
-- tables are equal again.
pub tx_req-received :
    (k c : Conn) (e : Encoder) (o : TxReqOptions) (i : ℕ) (rest : Bytes)
    → c.decoder ≡ k.encoder.table
    → IsExact k.encoder.table
    → All (HasRoom k.encoder.table) (req_fields o)
    → o.hpack_instructions ≡ []
    → encode k.encoder (req_fields o) ≡ ok e
    → length e.buf < 2 ^ 24
    → All IsRegular o.headers
    → ends_with_headers o ≡ true
    → i < 2 ^ 31
    → get c.streams i ≡ none
    → (bytes : Bytes) × (f : Frame) × (s : Stream) × ((tx_req k i o).1 ≡ done)
      × ((tx_req k i o).0.written ≡ k.written ++ bytes)
      × (read_frame (bytes ++ rest) ≡ ok (f, rest))
      × ((process_frame c f).1 ≡ none)
      × (get (process_frame c f).0.streams i ≡ some s)
      × (request s ≡ request_of o)
      × (s.req_headers ≡ req_fields o)
      × (s.req_body ≡ [])
      × (s.state ≡ half_closed_remote)
      × (s.signalled ≡ true)
      × ((process_frame c f).0.decoder ≡ (tx_req k i o).0.encoder.table)
unfolding send_headers signal
tx_req-received k c e o i rest d valid room no_instructions sent short regular ends small fresh =
    let (f, got, read, no_error, same, stored, table) =
      process-write_headers_frame c k.encoder e (req_fields o) i true true rest d valid room sent
        short small in
    let (pseudo, fields) = taken_lem o true i regular in
    let (state, body) = taken_kept o true i in
    let step = tx_req_step k i o e no_instructions sent in
    let at_stream : receive_headers got true (target c i) ≡ taken o true i =
      rw (target_fresh c i fresh) (receive_headers-taken o got true i regular same) in
    (
      write_headers_frame i e.buf true true,
      f,
      taken o true i,
      ap (λ (r : Commanded). r.1) step,
      rw (step, send_message-ends append_req_body _ i e.buf o.body o.end_stream ends),
      read,
      no_error,
      stored ∙ ap some at_stream,
      pseudo,
      fields,
      body,
      state,
      refl,
      rw (step, send_message-ends append_req_body _ i e.buf o.body o.end_stream ends) table,
    )

sends_body :
    (append_body : Stream → Bytes → Stream) (k : Conn) (i : ℕ) (block body : Bytes)
    → (length body == 0) ≡ false
    → send_message append_body k i block body false
      ≡ send_data append_body (send_headers k i block false) i body false
unfolding send_message
sends_body append_body k i block body h =
    let some_bytes : ltb 0 (length body) ≡ true = ground (arith, h) in rw (h, some_bytes)

-- A request without explicit instructions, with a body and no END_STREAM: under the same conditions,
-- and a body below 2 ^ 24 bytes, `TxReq` succeeds and writes two frames, which the receiver takes one
-- after the other without error. Its new stream has the request, all the fields and the body, and is
-- open: neither frame ends it.
pub tx_req-received_body :
    (k c : Conn) (e : Encoder) (o : TxReqOptions) (i : ℕ) (rest : Bytes)
    → c.decoder ≡ k.encoder.table
    → IsExact k.encoder.table
    → All (HasRoom k.encoder.table) (req_fields o)
    → o.hpack_instructions ≡ []
    → encode k.encoder (req_fields o) ≡ ok e
    → length e.buf < 2 ^ 24
    → All IsRegular o.headers
    → o.end_stream ≡ false
    → (length o.body == 0) ≡ false
    → length o.body < 2 ^ 24
    → i < 2 ^ 31
    → get c.streams i ≡ none
    → (one : Bytes) × (two : Bytes) × (f : Frame) × (g : Frame) × (s : Stream) × ((tx_req k i o).1
        ≡ done)
      × ((tx_req k i o).0.written ≡ (k.written ++ one) ++ two)
      × (read_frame (one ++ (two ++ rest)) ≡ ok (f, two ++ rest))
      × (read_frame (two ++ rest) ≡ ok (g, rest))
      × ((process_frame c f).1 ≡ none)
      × ((process_frame (process_frame c f).0 g).1 ≡ none)
      × (get (process_frame (process_frame c f).0 g).0.streams i ≡ some s)
      × (request s ≡ request_of o)
      × (s.req_headers ≡ req_fields o)
      × (s.req_body ≡ o.body)
      × (s.state ≡ open_)
unfolding send_headers send_data signal update_state append_req_body next_state
tx_req-received_body k c e o i rest d valid room none_given sent short regular unended body bound
      small fresh =
    let two = write_data_frame i o.body false in
    let (f, got, read, no_error, same, stored, table) =
      process-write_headers_frame c k.encoder e (req_fields o) i false true (two ++ rest) d valid
        room sent short small in
    let at_stream : receive_headers got false (target c i) ≡ taken o false i =
      rw (target_fresh c i fresh) (receive_headers-taken o got false i regular same) in
    let (g, read', no_error', stored', table') =
      process-write_data_frame (process_frame c f).0 i o.body false (taken o false i) rest small
        bound (stored ∙ ap some at_stream) in
    let (pseudo, fields) = taken_lem o false i regular in
    let (state, empty) = taken_kept o false i in
    let step = tx_req_step k i o e none_given sent in
    (
      write_headers_frame i e.buf false true,
      two,
      f,
      g,
      receive_data o.body false (taken o false i),
      ap (λ (r : Commanded). r.1) step,
      rw (step, unended, sends_body append_req_body _ i e.buf o.body body),
      read,
      read',
      no_error,
      no_error',
      stored',
      pseudo,
      fields,
      ap (λ b. b ++ o.body) empty,
      ap (λ x. next_state x false false) state,
    )
