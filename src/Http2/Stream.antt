-- ===== src/Http2/Stream.antt =====
-- pkg/http2/stream.go: one stream and its state machine, and the streams of a connection. Each method
-- runs under the stream's mutex, so it is one step on the record.
pub mod States
pub mod Headers
pub mod Manager
use gtest.Common.{
  ℕ, ◌+◌, ◌%◌, ◌^◌, Bool, true, false, not, ◌&&◌, List, [], ◌∷◌, ◌++◌, map, Option, none, some, ltb,
  if◌then◌else◌, Bytes, codes, bytes_eq, length,
}
use gtest.Common.Maps.{lookup, insert, delete, number_key}
use gtest.Hpack.Static.{HeaderField, field}

pub data StreamState : Type 0 where
  idle reserved_local reserved_remote open_ half_closed_local half_closed_remote closed :
      StreamState

-- The windows are int32, kept as their 32 bits. `signal` is the channel of capacity 1: whether it
-- holds a value.
pub record Stream : Type 0 where
  pub id : ℕ
  pub name : Bytes
  pub state : StreamState
  pub req_headers : List HeaderField
  pub resp_headers : List HeaderField
  pub req_body : Bytes
  pub resp_body : Bytes
  pub method : Bytes
  pub path : Bytes
  pub scheme : Bytes
  pub authority : Bytes
  pub status : Bytes
  pub send_window : ℕ
  pub recv_window : ℕ
  pub signalled : Bool

unfoldable pub new_stream : ℕ → Bytes → Stream
new_stream i n = record {
  id = i;
  name = n;
  state = idle;
  req_headers = [];
  resp_headers = [];
  req_body = [];
  resp_body = [];
  method = [];
  path = [];
  scheme = [];
  authority = [];
  status = [];
  send_window = 65535;
  recv_window = 65535;
  signalled = false;
}

-- The switch of `UpdateState`; the reserved states have no case.
unfoldable pub next_state : StreamState → Bool → Bool → StreamState
next_state idle end_stream sending =
    if sending
    then (if end_stream then half_closed_local else open_)
    else if end_stream
    then half_closed_remote
    else open_
next_state open_ end_stream sending =
    if sending && end_stream
    then half_closed_local
    else if not sending && end_stream
    then half_closed_remote
    else open_
next_state half_closed_local end_stream sending =
    if not sending && end_stream then closed else half_closed_local
next_state half_closed_remote end_stream sending =
    if sending && end_stream then closed else half_closed_remote
next_state closed end_stream sending = closed
next_state reserved_local end_stream sending = reserved_local
next_state reserved_remote end_stream sending = reserved_remote

unfoldable pub update_state : Stream → Bool → Bool → Stream
update_state s end_stream sending = record s { state = next_state s.state end_stream sending }

-- The pseudo-headers of a request.
unfoldable pub set_pseudo : Stream → Bytes → Bytes → Stream
set_pseudo s n v =
    if bytes_eq n (codes ":method")
    then record s { method = v }
    else if bytes_eq n (codes ":path")
    then record s { path = v }
    else if bytes_eq n (codes ":scheme")
    then record s { scheme = v }
    else if bytes_eq n (codes ":authority")
    then record s { authority = v }
    else s

unfoldable pub add_req_header : Stream → Bytes → Bytes → Stream
add_req_header s n v =
    let s' = set_pseudo s n v in record s' { req_headers = s'.req_headers ++ (field n v ∷ []) }

unfoldable pub add_resp_header : Stream → Bytes → Bytes → Stream
add_resp_header s n v =
    let s' = if bytes_eq n (codes ":status") then record s { status = v } else s in
    record s' { resp_headers = s'.resp_headers ++ (field n v ∷ []) }

unfoldable pub append_req_body : Stream → Bytes → Stream
append_req_body s b = record s { req_body = s.req_body ++ b }

unfoldable pub append_resp_body : Stream → Bytes → Stream
append_resp_body s b = record s { resp_body = s.resp_body ++ b }

-- The value of the first header of that name; empty if there is none.
unfoldable pub get_header : List HeaderField → Bytes → Bytes
get_header [] n = []
get_header (hf ∷ hs) n = if bytes_eq hf.name n then hf.value else get_header hs n

unfoldable pub signal : Stream → Stream
signal s = record s { signalled = true }

-- `Wait` goes on only when the channel holds a value, and takes it.
unfoldable pub wait : Stream → Option Stream
wait s = if s.signalled then some (record s { signalled = false }) else none

-- `+=` in int32, on bits.
abbrev pub add_int32 : ℕ → ℕ → ℕ
add_int32 a d = (a + d) % 2 ^ 32

unfoldable pub update_send_window : Stream → ℕ → Stream
update_send_window s d = record s { send_window = add_int32 s.send_window d }

unfoldable pub update_recv_window : Stream → ℕ → Stream
update_recv_window s d = record s { recv_window = add_int32 s.recv_window d }

-- `StreamManager`: the map of the streams by their identifiers.
abbrev pub StreamManager : Type 0
StreamManager = List (ℕ × Stream)

abbrev pub new_stream_manager : StreamManager
new_stream_manager = []

unfoldable pub create : StreamManager → ℕ → Bytes → StreamManager × Stream
create m i n = let s = new_stream i n in (insert i s m, s)

unfoldable pub get : StreamManager → ℕ → Option Stream
get m i = lookup i m

unfoldable pub get_by_name : StreamManager → Bytes → Option Stream
get_by_name [] n = none
get_by_name ((i, s) ∷ m) n = if bytes_eq s.name n then some s else get_by_name m n

abbrev pub existing_or :
    StreamManager × Stream → StreamManager → Option Stream → StreamManager × Stream
existing_or fresh m (some s) = (m, s)
existing_or fresh m none = fresh

unfoldable pub get_or_create : StreamManager → ℕ → Bytes → StreamManager × Stream
get_or_create m i n = existing_or (create m i n) m (lookup i m)

unfoldable pub remove : StreamManager → ℕ → StreamManager
remove m i = delete i m

unfoldable pub count : StreamManager → ℕ
count m = length m

unfoldable pub list_ids : StreamManager → List ℕ
list_ids m = map (λ p. p.0) m

-- A change made through the pointer that the map holds.
unfoldable pub modify : StreamManager → ℕ → (Stream → Stream) → StreamManager
modify [] i f = []
modify ((j, s) ∷ m) i f = if number_key.same j i then (j, f s) ∷ m else (j, s) ∷ modify m i f
