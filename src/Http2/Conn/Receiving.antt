-- ===== src/Http2/Conn/Receiving.antt =====
-- What `processFrame` of pkg/http2/conn.go does on SETTINGS, PING and WINDOW_UPDATE frames.
use gtest.Common.{
  ℕ, ◌+◌, ◌%◌, false, not, ◌&&◌, ==_iff, ◌^◌, ◌<◌, ◌≡◌, refl, ap, ◌∙◌, ◌⊎◌, inl, inr, true, List,
  [], ◌∷◌, ◌++◌, Option, none, some, ◌==◌, if◌then◌else◌, Bytes, length, bit_and, ok, arith, All,
  Bool-cases,
}
use gtest.Common.Maps.{lookup, insert, lookup-insert, number_key}
use gtest.Http2.Frame.{
  Frame, Setting, frame, frame_settings, frame_ping, frame_window_update, flag_ack, flag_none, has,
  settings_payload, write_settings_frame, write_ping_frame, write_window_update_frame, read_frame,
  put_uint32,
}
use gtest.Http2.Frame.Header.{read-write_frame, uint32-put, clear_reserved}
use gtest.Http2.Frame.Settings.{IsSetting, parse-settings_payload}
use gtest.Http2.Stream.{Stream, get, update_send_window}
use gtest.Http2.Stream.Manager.{get-modify, apply_at}
use gtest.Http2.Conn.{Conn, Settings, Handled, settings_bytes}
use gtest.Http2.Conn.Handlers.{
  apply_settings, resize_decoder, handle_settings, handle_ping, handle_window_update,
  window_increment, grow_window, process_frame,
}

-- The last value that a list of settings gives to an identifier, or what was there.
unfoldable pub latest : ℕ → Option ℕ → List Setting → Option ℕ
latest i old [] = old
latest i old (s ∷ ss) = latest i (if s.id == i then some s.value else old) ss

apply_settings-latest :
    (m : Settings) (size : Option ℕ) (ss : List Setting) (i : ℕ)
    → (lookup i (apply_settings m size ss).0 ≡ latest i (lookup i m) ss)
      × ((apply_settings m size ss).1 ≡ latest 1 size ss)
unfolding apply_settings latest
apply_settings-latest m size [] i = (refl, refl)
apply_settings-latest m size (s ∷ ss) i =
    let (one, two) =
      apply_settings-latest (insert s.id s.value m) (if s.id == 1 then some s.value else size) ss
        i in
    (one ∙ ap (λ (o : Option ℕ). latest i o ss) (lookup-insert s.id i s.value m), two)

-- A SETTINGS frame of entries that fit their 16 and 32 bits, which is no acknowledgement, is taken
-- without error: every setting has the last value that the frame gives it, or the one it had, one
-- acknowledgement is sent, and the last header table size in the frame becomes the limit of the
-- decoder's table; the encoder stays as it was.
pub process_settings :
    (c : Conn) (sid : ℕ) (ss : List Setting) (i : ℕ)
    → All IsSetting ss
    → let r = process_frame c (frame frame_settings flag_none sid (settings_payload ss)) in
      (r.1 ≡ none)
      × (lookup i r.0.remote_settings ≡ latest i (lookup i c.remote_settings) ss)
      × (r.0.spawned ≡ c.spawned ++ (write_settings_frame 0 true [] ∷ []))
      × (r.0.decoder ≡ resize_decoder c.decoder (latest 1 none ss))
      × (r.0.encoder ≡ c.encoder)
unfolding process_frame handle_settings has settings_bytes
process_settings c sid ss i h =
    let (one, two) = apply_settings-latest c.remote_settings none ss i in
    rw (parse-settings_payload ss h) (refl, one, refl, ap (resize_decoder c.decoder) two, refl)

-- An acknowledgement, of SETTINGS or of PING, changes nothing and is not answered, whatever its
-- payload.
pub process_ack :
    (c : Conn) (f : Frame)
    → (f.header.kind ≡ frame_settings) ⊎ (f.header.kind ≡ frame_ping)
    → has f.header.flags flag_ack ≡ true
    → process_frame c f ≡ (c, none)
unfolding process_frame handle_settings handle_ping
process_ack c f (inl k) h = rw (k, h)
process_ack c f (inr k) h = rw (k, h)

-- A PING with eight bytes is answered by one frame, which a reader takes for an acknowledgement with
-- the same bytes; on the other side that frame ends the exchange.
pub process_ping :
    (c d : Conn) (sid : ℕ) (content rest : Bytes)
    → length content ≡ 8
    → (reply : Bytes) × (answer : Frame) × (process_frame c (frame frame_ping flag_none sid content)
        ≡ (record c { spawned = c.spawned ++ (reply ∷ []) }, none))
      × (read_frame (reply ++ rest) ≡ ok (answer, rest))
      × (answer.payload ≡ content)
      × (process_frame d answer ≡ (d, none))
unfolding process_frame handle_ping has write_ping_frame
process_ping c d sid content rest h = (
  write_ping_frame true content,
  frame frame_ping flag_ack 0 content,
  rw h,
  read-write_frame (frame frame_ping flag_ack 0 content) rest (omega arith),
  refl,
  process_ack d (frame frame_ping flag_ack 0 content) (inr refl) refl,
)

increment_bytes : (v : ℕ) → v < 2 ^ 32 → window_increment (put_uint32 v) ≡ some (v % 2 ^ 31)
unfolding window_increment
increment_bytes v h = rw (uint32-put v h, clear_reserved v)

twice_31 : (v : ℕ) → v % 2 ^ 31 % 2 ^ 31 ≡ v % 2 ^ 31
twice_31 v = omega arith

window_update_step :
    (c : Conn) (sid increment : ℕ)
    → process_frame c
        (frame frame_window_update flag_none sid (put_uint32 (bit_and increment 0x7FFFFFFF)))
      ≡ (grow_window c sid (increment % 2 ^ 31), none)
unfolding process_frame handle_window_update
window_update_step c sid increment =
    let low = clear_reserved increment in
    let read : window_increment (put_uint32 (bit_and increment 0x7FFFFFFF))
        ≡ some (increment % 2 ^ 31) =
      increment_bytes (bit_and increment 0x7FFFFFFF) (omega arith) ∙ rw (low, twice_31 increment) in
    rw (read, handle_window_update)

-- The window of a stream, a number of 32 bits, at an increment.
abbrev pub widened : ℕ → Option Stream → Option Stream
widened d none = none
widened d (some s) = some (record s { send_window = (s.send_window + d) % 2 ^ 32 })

widened_lem : (d : ℕ) (o : Option Stream) → apply_at (λ s. update_send_window s d) o ≡ widened d o
unfolding update_send_window
widened_lem d none = refl
widened_lem d (some s) = refl

grow_window_kept :
    (c : Conn) (sid d : ℕ)
    → grow_window c sid d ≡ record c {
      send_window = if sid == 0 then (c.send_window + d) % 2 ^ 32 else c.send_window;
      streams = (grow_window c sid d).streams;
    }
unfolding grow_window
grow_window_kept c sid d = elim (Bool-cases (sid == 0)) [ inl z ↦ rw z | inr z ↦ rw z ]

grow_window_streams :
    (c : Conn) (sid d j : ℕ)
    → get (grow_window c sid d).streams j
      ≡ (if not (sid == 0) && (sid == j) then widened d (get c.streams j) else get c.streams j)
unfolding grow_window
grow_window_streams c sid d j = elim (Bool-cases (sid == 0)) [
  | inl z ↦ rw z
  | inr z ↦ rw z (
      get-modify c.streams sid j (λ s. update_send_window s d)
      ∙ rw (widened_lem d (get c.streams j)))
]

-- A WINDOW_UPDATE frame as written, for a stream identifier of 31 bits, is taken without error and
-- adds the low 31 bits of its increment, modulo 2 ^ 32, to one send window: the connection's for
-- stream 0, else that of the stream, if it exists. Nothing else of the connection changes, and no
-- other stream.
pub process-write_window_update_frame :
    (c : Conn) (sid increment : ℕ) (rest : Bytes) (j : ℕ)
    → sid < 2 ^ 31
    → (f : Frame) × (read_frame (write_window_update_frame sid increment ++ rest) ≡ ok (f, rest))
      × (process_frame c f ≡ (
        record c {
          send_window =
              if sid == 0 then (c.send_window + increment % 2 ^ 31) % 2 ^ 32 else c.send_window;
          streams = (process_frame c f).0.streams;
        },
        none,
      ))
      × (get (process_frame c f).0.streams j ≡ (
          if not (sid == 0) && (sid == j)
          then widened (increment % 2 ^ 31) (get c.streams j)
          else get c.streams j))
unfolding write_window_update_frame
process-write_window_update_frame c sid increment rest j h =
    let f = frame frame_window_update flag_none sid (put_uint32 (bit_and increment 0x7FFFFFFF)) in
    let done = window_update_step c sid increment in
    let same : sid % 2 ^ 31 ≡ sid = omega arith in
    (
      f,
      read-write_frame f rest (omega arith) ∙ rw same,
      rw done (ap (λ (k : Conn). (k, none)) (grow_window_kept c sid (increment % 2 ^ 31))),
      ap (λ (r : Handled). get r.0.streams j) done
          ∙ grow_window_streams c sid (increment % 2 ^ 31) j,
    )

-- WINDOW_UPDATE frames of a stream as the peer writes them, processed one after the other.
abbrev pub after_updates : Conn → ℕ → List ℕ → Conn
after_updates c sid [] = c
after_updates c sid (d ∷ ds) =
    after_updates
      (process_frame c
        (frame frame_window_update flag_none sid (put_uint32 (bit_and d 0x7FFFFFFF)))).0
      sid ds

-- What the frames announce in all.
abbrev pub total : List ℕ → ℕ
total [] = 0
total (d ∷ ds) = d % 2 ^ 31 + total ds

wraps_once : (a d t : ℕ) → ((a + d) % 2 ^ 32 + t) % 2 ^ 32 ≡ (a + (d + t)) % 2 ^ 32
wraps_once a d t = omega arith

-- However many WINDOW_UPDATE frames arrive for a stream that is there, other than 0, and however
-- large their increments are, its send window is then the 32 bits of what it was and of all the
-- increments together: it is not capped at 2 ^ 31 - 1 and may wrap past zero more than once.
pub after_updates-total :
    (c : Conn) (sid : ℕ) (s : Stream) (ds : List ℕ)
    → (sid == 0) ≡ false
    → s.send_window < 2 ^ 32
    → get c.streams sid ≡ some s
    → get (after_updates c sid ds).streams sid
      ≡ some (record s { send_window = (s.send_window + total ds) % 2 ^ 32 })
after_updates-total c sid s [] ne small there =
    let same : (s.send_window + 0) % 2 ^ 32 ≡ s.send_window = omega arith in rw same there
after_updates-total c sid s (d ∷ ds) ne small there =
    let here : (sid == sid) ≡ true = (==_iff sid sid).1 refl in
    let c' = grow_window c sid (d % 2 ^ 31) in
    let s' = record s { send_window = (s.send_window + d % 2 ^ 31) % 2 ^ 32 } in
    ap (λ (r : Handled). get (after_updates r.0 sid ds).streams sid) (window_update_step c sid d)
    ∙ after_updates-total c' sid s' ds ne (omega arith)
        (grow_window_streams c sid (d % 2 ^ 31) sid ∙ rw (ne, here, there))
    ∙ ap (λ x. some (record s { send_window = x }))
        (wraps_once s.send_window (d % 2 ^ 31) (total ds))
