-- ===== src/Http2/Commands.antt =====
-- pkg/http2/commands.go: what a script sends on a stream and waits for. `Wait` blocks until the loop
-- that receives frames has signalled the stream, so a command may answer that it is blocked, and
-- leaves the connection as it was.
pub mod Expect
pub mod Frames
pub mod Recording
pub mod Requests
pub mod Comparing
pub mod Exchange
pub mod Settings
pub mod Writing
use gtest.Common.{
  ℕ, Bool, true, false, not, ◌&&◌, ◌||◌, List, [], ◌∷◌, ◌++◌, Option, none, some, ◌==◌, ltb,
  if◌then◌else◌, Bytes, codes, bytes_eq, length, Result, ok, err,
}
use gtest.Hpack.Static.{HeaderField, field}
use gtest.Hpack.Table.{DynamicTable, LookupError, lookup}
use gtest.Hpack.Integer.{IntegerError}
use gtest.Hpack.Encode.{Encoder, Step, encode}
use gtest.Hpack.Encode.Explicit.{HpackInstruction, ExplicitError, encode_explicit}
use gtest.Http2.Frame.{write_headers_frame, write_data_frame}
use gtest.Http2.Stream.{
  Stream, update_state, append_req_body, append_resp_body, wait, get, get_or_create, modify,
}
use gtest.Http2.Stream.Headers.{add_req_headers, add_resp_headers}
use gtest.Http2.Conn.{Conn}
use gtest.Http2.Conn.Handlers.{stream_name}

-- The headers are a map, in the order of some iteration over it.
pub record TxReqOptions : Type 0 where
  pub method : Bytes
  pub path : Bytes
  pub scheme : Bytes
  pub authority : Bytes
  pub headers : List (Bytes × Bytes)
  pub body : Bytes
  pub end_stream : Bool
  pub hpack_instructions : List HpackInstruction

pub record TxRespOptions : Type 0 where
  pub status : Bytes
  pub headers : List (Bytes × Bytes)
  pub body : Bytes
  pub end_stream : Bool
  pub hpack_instructions : List HpackInstruction

pub data ExpectFailure : Type 0 where
  invalid_format invalid_prefix not_numeric unknown_operator expect_failed : ExpectFailure

pub data CommandError : Type 0 where
  stream_not_found invalid_hex : CommandError
  bad_instruction : ExplicitError → CommandError
  bad_field : IntegerError → CommandError
  failed_expect : ExpectFailure → CommandError

pub data Outcome (E : Type 0) : Type 0 where
  done blocked : Outcome E
  failed : E → Outcome E

abbrev pub Commanded : Type 0
Commanded = Conn × Outcome CommandError

-- The name and value that an instruction is recorded with; no name, no record. The table is the one
-- that all the instructions leave.
abbrev found : (HeaderField → Bytes × Bytes) → Result LookupError HeaderField → Bytes × Bytes
found f (ok hf) = f hf
found f (err e) = ([], [])

unfoldable pub instruction_field : DynamicTable → HpackInstruction → Bytes × Bytes
instruction_field t r =
    if bytes_eq r.kind (codes "indexed")
    then found (λ hf. (hf.name, hf.value)) (lookup t r.index)
    else if bytes_eq r.kind (codes "literal-indexed")
    then found (λ hf. (hf.name, r.value)) (lookup t r.index)
    else if bytes_eq r.kind (codes "literal-new")
    then (r.name, r.value)
    else ([], [])

abbrev named : Bytes × Bytes → List HeaderField → List HeaderField
named ([], v) hs = hs
named (c ∷ n, v) hs = field (c ∷ n) v ∷ hs

unfoldable pub instruction_fields : DynamicTable → List HpackInstruction → List HeaderField
instruction_fields t [] = []
instruction_fields t (r ∷ rs) = named (instruction_field t r) (instruction_fields t rs)

abbrev pub fields_of : List (Bytes × Bytes) → List HeaderField
fields_of [] = []
fields_of ((n, v) ∷ m) = field n v ∷ fields_of m

-- The pseudo-headers first.
abbrev pub req_fields : TxReqOptions → List HeaderField
req_fields o =
    field (codes ":method") o.method
    ∷ field (codes ":path") o.path
    ∷ field (codes ":scheme") o.scheme
    ∷ field (codes ":authority") o.authority
    ∷ fields_of o.headers

abbrev pub resp_fields : TxRespOptions → List HeaderField
resp_fields o = field (codes ":status") o.status ∷ fields_of o.headers

unfoldable pub send_headers : Conn → ℕ → Bytes → Bool → Conn
send_headers c i block ends = record c {
  written = c.written ++ write_headers_frame i block ends true;
  streams = modify c.streams i (λ s. update_state s ends true);
}

-- A request and a response differ in how the stream records the headers, and the body below.
module _ (add_all : Stream → List HeaderField → Stream) where
  abbrev record_fields : Conn → ℕ → List HeaderField → Conn
  record_fields c i hs = record c { streams = modify c.streams i (λ s. add_all s hs) }

  abbrev pub at_explicit :
      Conn
      → ℕ
      → List HpackInstruction
      → Result ExplicitError Bytes
      → Conn × Result CommandError Bytes
  at_explicit c i rs (err x) = (c, err (bad_instruction x))
  at_explicit c i rs (ok block) =
      (record_fields c i (instruction_fields c.encoder.table rs), ok block)

  abbrev pub at_encoded : Conn → ℕ → List HeaderField → Step → Conn × Result CommandError Bytes
  at_encoded c i hs (err x) = (c, err (bad_field x))
  at_encoded c i hs (ok e) = (record_fields (record c { encoder = e }) i hs, ok e.buf)

  -- The header block, by the instructions if there are any.
  unfoldable pub header_block :
      Conn → ℕ → List HpackInstruction → List HeaderField → Conn × Result CommandError Bytes
  header_block c i [] hs = at_encoded c i hs (encode c.encoder hs)
  header_block c i (r ∷ rs) hs =
      let (answer, e) = encode_explicit c.encoder (r ∷ rs) in
      at_explicit (record c { encoder = e }) i (r ∷ rs) answer

module _ (append_body : Stream → Bytes → Stream) where
  unfoldable pub send_data : Conn → ℕ → Bytes → Bool → Conn
  send_data c i body ends = record c {
    written = c.written ++ write_data_frame i body ends;
    streams = modify c.streams i (λ s. update_state (append_body s body) ends true);
  }

  -- `endStream`, and the frames that it decides on.
  unfoldable pub send_message : Conn → ℕ → Bytes → Bytes → Bool → Conn
  send_message c i block body end_stream =
      let ends = end_stream || (length body == 0) in
      let c' = send_headers c i block ends in
      if ltb 0 (length body) && not ends then send_data c' i body end_stream else c'

  abbrev pub send_block : ℕ → Bytes → Bool → Conn × Result CommandError Bytes → Commanded
  send_block i body end_stream (c, err e) = (c, failed e)
  send_block i body end_stream (c, ok block) = (send_message c i block body end_stream, done)

-- The connection with the stream made, if need be.
abbrev pub with_stream : Conn → ℕ → Conn
with_stream c i = record c { streams = (get_or_create c.streams i (stream_name i)).0 }

unfoldable pub tx_req : Conn → ℕ → TxReqOptions → Commanded
tx_req c i o =
    send_block append_req_body i o.body o.end_stream
      (header_block add_req_headers (with_stream c i) i o.hpack_instructions (req_fields o))

-- A command on a stream that must be there.
abbrev pub on_stream : Conn → Option Stream → (Stream → Commanded) → Commanded
on_stream c none f = (c, failed stream_not_found)
on_stream c (some s) f = f s

unfoldable pub tx_resp : Conn → ℕ → TxRespOptions → Commanded
tx_resp c i o = on_stream c (get c.streams i) (λ s.
    send_block append_resp_body i o.body o.end_stream
      (header_block add_resp_headers c i o.hpack_instructions (resp_fields o)))

-- `stream.Wait()`
abbrev pub waited : Conn → ℕ → Option Stream → Commanded
waited c i none = (c, blocked)
waited c i (some s) = (record c { streams = modify c.streams i (λ _. s) }, done)

unfoldable pub rx_req : Conn → ℕ → Commanded
rx_req c i = on_stream c (get c.streams i) (λ s. waited c i (wait s))

unfoldable pub rx_resp : Conn → ℕ → Commanded
rx_resp c i = on_stream c (get c.streams i) (λ s. waited c i (wait s))

unfoldable pub tx_data : Conn → ℕ → Bytes → Bool → Commanded
tx_data c i content end_stream =
    on_stream c (get c.streams i) (λ s. (send_data append_req_body c i content end_stream, done))

-- `RxData` and the body that it answers.
abbrev received_body : Conn → ℕ → Option Stream → Commanded × Option Bytes
received_body c i none = ((c, blocked), none)
received_body c i (some s) =
    ((record c { streams = modify c.streams i (λ _. s) }, done), some s.req_body)

unfoldable pub rx_data : Conn → ℕ → Commanded × Option Bytes
rx_data c i = elim (get c.streams i) [
  | none ↦ ((c, failed stream_not_found), none)
  | some s ↦ received_body c i (wait s)
]
