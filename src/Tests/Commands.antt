-- ===== src/Tests/Commands.antt =====
-- pkg/http2/commands.go and pkg/http2/frame_commands.go between two concrete connections.
use gtest.Common.{
  ◌≡◌, ◌≢◌, ◌↔◌, refl, Bool, true, false, [], ◌∷◌, ◌++◌, none, some, Bytes, bytes_eq, codes, ok,
  arith,
}
use gtest.Common.Strings.{Within, has_prefix}
use gtest.Common.Maps
use gtest.Hpack.Static.{field, size, static_table}
use gtest.Hpack.Table.{search, search_dynamic, find_from, add, evict, evict_loop, lookup}
use gtest.Hpack.Table.Exact.{new_dynamic_table-IsExact}
use gtest.Hpack.Encode.{
  Encoder, new_encoder, encode, encode_fields, encode_field, encode_match, encode_indexed,
  encode_literal_with_indexing, encode_literal_with_indexing_new_name,
}
use gtest.Hpack.Integer.{encode_integer}
use gtest.Hpack.Text.{encode_string}
use gtest.Http2.Frame.{Frame, read_frame}
use gtest.Http2.Stream.{Stream, new_stream, open_, get, get_header}
use gtest.Http2.Stream.Headers.{request}
use gtest.Http2.Conn.{Conn, new_conn}
use gtest.Http2.Conn.Handlers.{process_frame}
use gtest.Http2.Commands.{TxReqOptions, done, tx_req, rx_req, req_fields}
use gtest.Http2.Commands.Recording.{request_of}
use gtest.Http2.Commands.Requests.{tx_req-received_body}
use gtest.Http2.Commands.Expect.{expect}

abbrev client : Conn
client = new_conn true

abbrev server : Conn
server = new_conn false

abbrev options : Bytes → Bool → TxReqOptions
options body ends = record {
  method = codes "GET";
  path = codes "/";
  scheme = codes "http";
  authority = codes "a";
  headers = (codes "x-id", codes "1") ∷ [];
  body = body;
  end_stream = ends;
  hpack_instructions = [];
}

abbrev encoded : Encoder
encoded = record {
  table = record {
    entries = field (codes "x-id") (codes "1") ∷ field (codes ":authority") (codes "a") ∷ [];
    total_size = 80;
    max_size = 4096;
  };
  buf =
      0x82 ∷ 0x84 ∷ 0x86 ∷ 0x41 ∷ 1 ∷ (codes "a" ++ (0x40 ∷ 4 ∷ (codes "x-id" ++ (1 ∷ codes "1"))));
}

encode-encoded :
    (body : Bytes) (ends : Bool)
    → encode (new_encoder 4096) (req_fields (options body ends)) ≡ ok encoded
unfolding encode encode_fields encode_field encode_match search search_dynamic find_from
    static_table bytes_eq encode_indexed encode_literal_with_indexing
    encode_literal_with_indexing_new_name encode_integer encode_string add evict evict_loop size
    lookup
encode-encoded body ends = refl

Expects : Bytes → Bytes → Bytes → Type 0
Expects body name v =
    (bytes : Bytes) × (f : Frame) × ((tx_req client 1 (options body true)).0.written
      ≡ client.written ++ bytes)
    × (read_frame (bytes ++ []) ≡ ok (f, []))
    × let (c', answer) = rx_req (process_frame server f).0 1 in
      (answer ≡ done)
      × (((expect c' 1 (codes "req.method") (codes "==") v).1 ≡ done) ↔ (codes "GET" ≡ v))
      × (((expect c' 1 (codes "req.path") (codes "==") v).1 ≡ done) ↔ (codes "/" ≡ v))
      × (((expect c' 1 (codes "req.scheme") (codes "==") v).1 ≡ done) ↔ (codes "http" ≡ v))
      × (((expect c' 1 (codes "req.authority") (codes "==") v).1 ≡ done) ↔ (codes "a" ≡ v))
      × (((expect c' 1 (codes "req.body") (codes "==") v).1 ≡ done) ↔ ([] ≡ v))
      × (((expect c' 1 (codes "req.http." ++ name) (codes "==") v).1 ≡ done)
          ↔ (get_header (req_fields (options body true)) name ≡ v))

ArrivesWith : Bytes → Type 0
ArrivesWith body =
    let o = options body false in
    (one : Bytes) × (two : Bytes) × (f : Frame) × (g : Frame) × (s : Stream) × ((tx_req client 1
        o).1
      ≡ done)
    × ((tx_req client 1 o).0.written ≡ (client.written ++ one) ++ two)
    × (read_frame (one ++ (two ++ [])) ≡ ok (f, two ++ []))
    × (read_frame (two ++ []) ≡ ok (g, []))
    × ((process_frame server f).1 ≡ none)
    × ((process_frame (process_frame server f).0 g).1 ≡ none)
    × (get (process_frame (process_frame server f).0 g).0.streams 1 ≡ some s)
    × (request s ≡ request_of o)
    × (s.req_headers ≡ req_fields o)
    × (s.req_body ≡ o.body)
    × (s.state ≡ open_)

tx_req-received_body_example : ArrivesWith (codes "abc")
unfolding ArrivesWith new_conn get Maps.lookup
tx_req-received_body_example =
    tx_req-received_body client server encoded (options (codes "abc") false) 1 [] refl
      (new_dynamic_table-IsExact 4096 (omega arith))
      (omega arith, (omega arith, (omega arith, (omega arith, (omega arith, tt))))) refl
      (encode-encoded (codes "abc") false) (omega arith) (unfold has_prefix in (refl, tt)) refl refl
      (omega arith) (omega arith) refl

-- A server on which one stream was asked for /x.
abbrev asked : Stream
asked = record (new_stream 1 []) { path = codes "/x" }

abbrev asked_server : Conn
asked_server = record server { streams = (1, asked) ∷ [] }

Compares : Bytes → Type 0
Compares v =
    (((expect asked_server 1 (codes "req.path") (codes "==") v).1 ≡ done) ↔ (codes "/x" ≡ v))
    × (((expect asked_server 1 (codes "req.path") (codes "!=") v).1 ≡ done) ↔ (codes "/x" ≢ v))
    × (((expect asked_server 1 (codes "req.path") (codes "~") v).1 ≡ done) ↔ Within v (codes "/x"))
    × (((expect asked_server 1 (codes "req.path") (codes "!~") v).1 ≡ done)
        ↔ ¬ Within v (codes "/x"))
