-- ===== src/Session.antt =====
-- pkg/session/session.go: the options of a session, and the loop over its rounds.
pub mod Calls
pub mod Connections
pub mod Options
use gtest.Common.{
  ℕ, zero, suc, Bool, true, false, not, ◌&&◌, List, [], ◌∷◌, Option, none, some, ltb, if◌then◌else◌,
  Bytes, codes, bytes_eq, ℤ, pos, negsuc, Result, ok, err,
}
use gtest.Common.Numerals.{atoi}

pub record Session : Type 0 where
  pub name : Bytes
  pub repeat : ℤ
  pub keepalive : Bool
  pub rcv_buf : ℤ

abbrev pub new_session : Bytes → Session
new_session name = record { name = name; repeat = pos 1; keepalive = false; rcv_buf = pos 0 }

pub data SessionError : Type 0 where
  missing_argument invalid_value repeat_too_small connection_failed process_failed : SessionError

abbrev pub set_rcv_buf : Session → Option ℤ → Result SessionError (Session × ℕ)
set_rcv_buf s none = err invalid_value
set_rcv_buf s (some v) = ok (record s { rcv_buf = v }, 2)

abbrev pub set_repeat : Session → Option ℤ → Result SessionError (Session × ℕ)
set_repeat s none = err invalid_value
set_repeat s (some (negsuc n)) = err repeat_too_small
set_repeat s (some (pos zero)) = err repeat_too_small
set_repeat s (some (pos (suc n))) = ok (record s { repeat = pos (suc n) }, 2)

abbrev pub with_value :
    (Session → Option ℤ → Result SessionError (Session × ℕ))
    → Session
    → List Bytes
    → Result SessionError (Session × ℕ)
with_value set s [] = err missing_argument
with_value set s (v ∷ vs) = set s (atoi v)

-- `ParseOption`: the session and how many arguments were consumed.
unfoldable pub parse_option : Session → List Bytes → Result SessionError (Session × ℕ)
unfolding atoi
parse_option s [] = ok (s, 0)
parse_option s (a ∷ args) =
    if bytes_eq a (codes "-rcvbuf")
    then with_value set_rcv_buf s args
    else if bytes_eq a (codes "-repeat")
    then with_value set_repeat s args
    else if bytes_eq a (codes "-keepalive")
    then ok (record s { keepalive = true }, 1)
    else ok (s, 0)

-- The functions that a run is given, on the state `W` of what is outside. A connection is `none` where
-- it is `nil`. `connect` answers `none` for an error, and `process` whether it passed and the connection
-- to go on with. `none` for `disconnect` is `nil`.
pub record Callbacks (W Conn : Type 0) : Type 0 where
  pub connect : W → Option (Option Conn) × W
  pub process : Option Conn → W → Bool × Option Conn × W
  pub disconnect : Option (Conn → W → W)
  pub close : Conn → W → W

module _ {W Conn : Type 0} (f : Callbacks W Conn) where
  abbrev pub disconnect_by : Option (Conn → W → W) → Conn → W → W
  disconnect_by none c w = f.close c w
  disconnect_by (some g) c w = g c w

  abbrev pub disconnect_if : Option Conn → W → W
  disconnect_if none w = w
  disconnect_if (some c) w = disconnect_by f.disconnect c w

  abbrev pub close_if : Option Conn → W → W
  close_if none w = w
  close_if (some c) w = f.close c w

  -- A connection: the one there is, or a new one.
  abbrev pub connected : Option Conn → W → Option (Option Conn) × W
  connected none w = f.connect w
  connected (some c) w = (some (some c), w)

  -- The end of a round, and the rest of the loop.
  abbrev pub next_round :
      Bool
      → (Option Conn → W → Result SessionError (Option Conn) × W)
      → Bool × Option Conn × W
      → Result SessionError (Option Conn) × W
  next_round keepalive more (false, conn, w) = (err process_failed, close_if conn w)
  next_round true more (true, conn, w) = more conn w
  next_round false more (true, conn, w) = more none (disconnect_if conn w)

  abbrev pub round_from :
      Bool
      → (Option Conn → W → Result SessionError (Option Conn) × W)
      → Option (Option Conn) × W
      → Result SessionError (Option Conn) × W
  round_from keepalive more (none, w) = (err connection_failed, w)
  round_from keepalive more (some conn, w) = next_round keepalive more (f.process conn w)

  unfoldable pub rounds : Bool → ℕ → Option Conn → W → Result SessionError (Option Conn) × W
  rounds keepalive zero conn w = (ok conn, w)
  rounds keepalive (suc n) conn w = round_from keepalive (rounds keepalive n) (connected conn w)

  abbrev pub round_count : ℤ → ℕ
  round_count (pos n) = n
  round_count (negsuc n) = 0

  abbrev pub finish :
      Bool → Result SessionError (Option Conn) × W → Result SessionError (Unit {0}) × W
  finish keepalive (err e, w) = (err e, w)
  finish true (ok conn, w) = (ok tt, disconnect_if conn w)
  finish false (ok conn, w) = (ok tt, w)

  -- `Run`
  unfoldable pub run : Session → W → Result SessionError (Unit {0}) × W
  unfolding rounds
  run s w = finish s.keepalive (rounds s.keepalive (round_count s.repeat) none w)
