-- ===== src/Http2/Conn/Sending.antt =====
-- A header list from one end to the other: HPACK, the HEADERS frame and `handleHeaders` of
-- pkg/http2/conn.go together.
use gtest.Common.{
  ℕ, ◌%◌, ◌^◌, ◌<◌, ◌≡◌, refl, subst, ap, ◌∙◌, Bool, true, false, if◌then◌else◌, List, [], ◌++◌,
  map, none, some, ◌==◌, ==_iff, Bytes, length, ok, arith, All,
}
use gtest.Hpack.Static.{HeaderField}
use gtest.Hpack.Table.{DynamicTable}
use gtest.Hpack.Table.Exact.{IsExact, HasRoom}
use gtest.Hpack.Encode.{Encoder, Step, encode}
use gtest.Hpack.Decode.{decode}
use gtest.Hpack.RoundTrip.{decode-encode, pair}
use gtest.Http2.Frame.{
  Frame, frame, frame_headers, frame_data, flag_end_stream, flag_none, has, write_headers_frame,
  write_data_frame, read_frame,
}
use gtest.Http2.Frame.Header.{read-write_frame}
use gtest.Http2.Frame.Payloads.{read-write_headers_frame}
use gtest.Http2.Stream.{Stream, signal, update_state, append_req_body, get, get_or_create, modify}
use gtest.Http2.Stream.Manager.{get-modify, get-get_or_create}
use gtest.Http2.Conn.{Conn, Handled}
use gtest.Http2.Conn.Handlers.{
  handle_headers, handle_data, process_frame, receive_headers, stream_name, end_stream,
  finish_headers,
}

-- The fields that a decoder in step with the encoder gets.
record Received (t : DynamicTable) (hs : List HeaderField) (e' : Encoder) : Type 0 where
  got : List HeaderField
  decodes : decode t e'.buf ≡ (ok got, e'.table)
  same : map pair got ≡ map pair hs

same_encoder : {a b : Encoder} {r : Step} → r ≡ ok a → r ≡ ok b → a ≡ b
same_encoder p q = cc

received :
    (e e' : Encoder) (hs : List HeaderField)
    → IsExact e.table
    → All (HasRoom e.table) hs
    → encode e hs ≡ ok e'
    → Received e.table hs e'
received e e' hs valid room sent =
    let (e'', got, sent', decodes, same, kept) = decode-encode e hs valid room in
    let k : e'' ≡ e' = same_encoder sent' sent in
    record {
      got = got;
      decodes = subst (λ (x : Encoder). decode e.table x.buf ≡ (ok got, x.table)) k decodes;
      same = same;
    }

-- The stream that a HEADERS frame is for, which is made where there is none.
abbrev pub target : Conn → ℕ → Stream
target c i = (get_or_create c.streams i (stream_name i)).1

headers_step :
    (c : Conn) (f : Frame) {hs : List HeaderField} {t : DynamicTable}
    → decode c.decoder f.payload ≡ (ok hs, t)
    → handle_headers c f
      ≡ finish_headers
          (record c {
            streams =
                (get_or_create c.streams f.header.stream_id (stream_name f.header.stream_id)).0;
            decoder = t;
          })
          f.header.stream_id
          (end_stream f)
          (ok hs)
unfolding handle_headers
headers_step c f e = rw e

headers_frame :
    (c : Conn) (f : Frame) → f.header.kind ≡ frame_headers → process_frame c f ≡ handle_headers c f
unfolding process_frame
headers_frame c f k = rw k

headers_stream :
    (c : Conn) (i : ℕ) (g : Stream → Stream)
    → get (modify (get_or_create c.streams i (stream_name i)).0 i g) i ≡ some (g (target c i))
headers_stream c i g =
    let same : (i == i) ≡ true = (==_iff i i).1 refl in
    let (found, again) = get-get_or_create c.streams i (stream_name i) [] i in
    get-modify (get_or_create c.streams i (stream_name i)).0 i i g ∙ rw (same, found, same)

-- A receiver whose decoder holds the encoder's exact table, fields whose sizes fit uint32 with the
-- table's limit, a block below 2 ^ 24 bytes and a stream identifier of 31 bits: the HEADERS frame
-- of the block is read and taken without error, its stream, made if need be, gets fields of the
-- same names and values, its state moves by the frame's END_STREAM flag, and the decoder has the
-- encoder's new table.
pub process-write_headers_frame :
    (c : Conn) (e e' : Encoder) (hs : List HeaderField) (sid : ℕ) (ends end_headers : Bool)
    (rest : Bytes)
    → c.decoder ≡ e.table
    → IsExact e.table
    → All (HasRoom e.table) hs
    → encode e hs ≡ ok e'
    → length e'.buf < 2 ^ 24
    → sid < 2 ^ 31
    → (f : Frame) × (got : List HeaderField) × (read_frame
          (write_headers_frame sid e'.buf ends end_headers ++ rest)
        ≡ ok (f, rest))
      × ((process_frame c f).1 ≡ none)
      × (map pair got ≡ map pair hs)
      × (get (process_frame c f).0.streams sid ≡ some (receive_headers got ends (target c sid)))
      × ((process_frame c f).0.decoder ≡ e'.table)
process-write_headers_frame c e e' hs sid ends end_headers rest d valid room sent short small =
    let (f, read, kind, id, payload, ended, headers_ended) =
      read-write_headers_frame sid e'.buf rest ends end_headers short in
    let r = received e e' hs valid room sent in
    let i : f.header.stream_id ≡ sid = id ∙ omega arith in
    let decodes : decode c.decoder f.payload ≡ (ok r.got, e'.table) = rw (d, payload) r.decodes in
    let done = headers_frame c f kind ∙ headers_step c f decodes in
    (
      f,
      r.got,
      read,
      ap (λ (r : Handled). r.1) done,
      r.same,
      ap (λ (r : Handled). get r.0.streams sid) done
          ∙ rw (i, ended) (headers_stream c sid (receive_headers r.got ends)),
      ap (λ (r : Handled). r.0.decoder) done,
    )

data_step :
    (c : Conn) (i : ℕ) (payload : Bytes) (ends : Bool) (s : Stream)
    → get c.streams i ≡ some s
    → process_frame c (frame frame_data (if ends then flag_end_stream else flag_none) i payload) ≡ (
      record c {
        streams =
            modify c.streams i (λ s. signal (update_state (append_req_body s payload) ends false));
      },
      none,
    )
unfolding process_frame handle_data has
data_step c i payload true s e = rw (handle_data, e)
data_step c i payload false s e = rw (handle_data, e)

-- What a DATA frame does to its stream.
abbrev pub receive_data : Bytes → Bool → Stream → Stream
receive_data payload ends s = signal (update_state (append_req_body s payload) ends false)

-- A DATA frame of less than 2 ^ 24 bytes, on a stream of 31 bits that the receiver has, is read and
-- taken without error: the bytes are appended to the stream's request body, its state moves by the
-- frame's END_STREAM flag, and it is signalled.
pub process-write_data_frame :
    (c : Conn) (i : ℕ) (payload : Bytes) (ends : Bool) (s : Stream) (rest : Bytes)
    → i < 2 ^ 31
    → length payload < 2 ^ 24
    → get c.streams i ≡ some s
    → (f : Frame) × (read_frame (write_data_frame i payload ends ++ rest) ≡ ok (f, rest))
      × ((process_frame c f).1 ≡ none)
      × (get (process_frame c f).0.streams i ≡ some (receive_data payload ends s))
      × ((process_frame c f).0.decoder ≡ c.decoder)
unfolding write_data_frame
process-write_data_frame c i payload ends s rest small short e =
    let f = frame frame_data (if ends then flag_end_stream else flag_none) i payload in
    let same : i % 2 ^ 31 ≡ i = omega arith in
    let here : (i == i) ≡ true = (==_iff i i).1 refl in
    let done = data_step c i payload ends s e in
    (
      f,
      read-write_frame f rest short ∙ rw same,
      ap (λ (r : Handled). r.1) done,
      ap (λ (r : Handled). get r.0.streams i) done
          ∙ get-modify c.streams i i (receive_data payload ends)
          ∙ rw (here, e),
      ap (λ (r : Handled). r.0.decoder) done,
    )
