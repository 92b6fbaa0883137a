-- ===== src/Session/Connections.antt =====
-- The connections of a run of pkg/session/session.go, by the calls that it makes of the functions it is
-- given.
use gtest.Common.{
  ℕ, zero, suc, ◌≡◌, refl, Bool, true, false, List, [], ◌∷◌, Option, none, some, Result, ok, err,
}
use gtest.Session.Calls.{
  Call, connect_failed, connect, process, disconnect, close, Logged, log_connect, log_disconnect,
  logged, forget, run-forget,
}
use gtest.Session.{
  Session, SessionError, Callbacks, disconnect_by, disconnect_if, close_if, connected, next_round,
  round_from, rounds, round_count, finish, run,
}

-- What may be called, the newest call first, and the connection that is held behind it. A connection is
-- asked for only while none is held, `process` is given what is held and hands back what is held from
-- then on, and a connection that is held is disconnected or closed once.
pub data Trace {Conn : Type 0} : List (Call Conn) → Option Conn → Type 0 where
  nothing : Trace [] none
  failing : {cs : List (Call Conn)} → Trace cs none → Trace (connect_failed ∷ cs) none
  connecting :
      {cs : List (Call Conn)} {conn : Option Conn} → Trace cs none → Trace (connect conn ∷ cs) conn
  processing :
      {cs : List (Call Conn)} {conn next : Option Conn} {passed : Bool}
      → Trace cs conn
      → Trace (process conn passed next ∷ cs) next
  disconnecting :
      {cs : List (Call Conn)} {c : Conn} → Trace cs (some c) → Trace (disconnect c ∷ cs) none
  closing : {cs : List (Call Conn)} {c : Conn} → Trace cs (some c) → Trace (close c ∷ cs) none

module _ {W Conn : Type 0} (f : Callbacks W Conn) where
  -- Without keepalive there is no connection between two rounds.
  abbrev IsBetween : Bool → Option Conn → Logged W Conn → Type 0
  IsBetween keepalive conn x = (keepalive ≡ false → conn ≡ none) × Trace x.1 conn

  abbrev IsEnd : Bool → Result SessionError (Option Conn) × Logged W Conn → Type 0
  IsEnd keepalive (ok conn, x) = IsBetween keepalive conn x
  IsEnd keepalive (err e, x) = Trace x.1 none

  disconnect_by-Trace :
      (g : Option (Conn → W → W)) (c : Conn) (x : Logged W Conn)
      → Trace x.1 (some c)
      → Trace (disconnect_by (logged f) (log_disconnect g) c x).1 none
  disconnect_by-Trace none c x h = closing h
  disconnect_by-Trace (some g) c x h = disconnecting h

  disconnect_if-Trace :
      (conn : Option Conn) (x : Logged W Conn)
      → Trace x.1 conn
      → Trace (disconnect_if (logged f) conn x).1 none
  disconnect_if-Trace none x h = h
  disconnect_if-Trace (some c) x h = disconnect_by-Trace f.disconnect c x h

  close_if-Trace :
      (conn : Option Conn) (x : Logged W Conn)
      → Trace x.1 conn
      → Trace (close_if (logged f) conn x).1 none
  close_if-Trace none x h = h
  close_if-Trace (some c) x h = closing h

  -- What an answer of `connected` holds.
  abbrev holding : Option (Option Conn) → Option Conn
  holding none = none
  holding (some conn) = conn

  log_connect-Trace :
      (r : Option (Option Conn) × W) (cs : List (Call Conn))
      → Trace cs none
      → Trace (log_connect r cs).1.1 (holding (log_connect r cs).0)
  log_connect-Trace (none, w) cs h = failing h
  log_connect-Trace (some conn, w) cs h = connecting h

  connected-Trace :
      (conn : Option Conn) (x : Logged W Conn)
      → Trace x.1 conn
      → Trace (connected (logged f) conn x).1.1 (holding (connected (logged f) conn x).0)
  connected-Trace none x h = log_connect-Trace (f.connect x.0) x.1 h
  connected-Trace (some c) x h = h

  next_round-IsEnd :
      (keepalive : Bool)
      (more : Option Conn → Logged W Conn → Result SessionError (Option Conn) × Logged W Conn)
      (r : Bool × Option Conn × Logged W Conn)
      → ((conn : Option Conn) (x : Logged W Conn)
          → IsBetween keepalive conn x
          → IsEnd keepalive (more conn x))
      → Trace r.2.1 r.1
      → IsEnd keepalive (next_round (logged f) keepalive more r)
  next_round-IsEnd keepalive more (false, conn, x) h t = close_if-Trace conn x t
  next_round-IsEnd true more (true, conn, x) h t = h conn x ((λ e. absurd cc), t)
  next_round-IsEnd false more (true, conn, x) h t =
      h none (disconnect_if (logged f) conn x) ((λ e. refl), disconnect_if-Trace conn x t)

  round_from-IsEnd :
      (keepalive : Bool)
      (more : Option Conn → Logged W Conn → Result SessionError (Option Conn) × Logged W Conn)
      (r : Option (Option Conn) × Logged W Conn)
      → ((conn : Option Conn) (x : Logged W Conn)
          → IsBetween keepalive conn x
          → IsEnd keepalive (more conn x))
      → Trace r.1.1 (holding r.0)
      → IsEnd keepalive (round_from (logged f) keepalive more r)
  round_from-IsEnd keepalive more (none, x) h t = t
  round_from-IsEnd keepalive more (some conn, x) h t =
      next_round-IsEnd keepalive more ((logged f).process conn x) h (processing t)

  rounds-IsEnd :
      (keepalive : Bool) (n : ℕ) (conn : Option Conn) (x : Logged W Conn)
      → IsBetween keepalive conn x
      → IsEnd keepalive (rounds (logged f) keepalive n conn x)
  unfolding rounds
  rounds-IsEnd keepalive zero conn x b = b
  rounds-IsEnd keepalive (suc n) conn x b =
      round_from-IsEnd keepalive (rounds (logged f) keepalive n) (connected (logged f) conn x)
        (rounds-IsEnd keepalive n) (connected-Trace conn x b.1)

  finish-Trace :
      (keepalive : Bool) (r : Result SessionError (Option Conn) × Logged W Conn)
      → IsEnd keepalive r
      → Trace (finish (logged f) keepalive r).1.1 none
  finish-Trace keepalive (err e, x) h = h
  finish-Trace true (ok conn, x) h = disconnect_if-Trace conn x h.1
  finish-Trace false (ok none, x) h = h.1
  finish-Trace false (ok (some c), x) (h, t) = absurd (let e = h refl in cc)

-- Whatever the functions answer that a run is given, and whatever the session repeats, keeps alive or
-- disconnects with: with its calls noted down a run answers the same and leaves the same outside, and
-- by its calls it asks for a connection only when it holds none, processes what it holds, and at its
-- end, on success and on an error, has disconnected or closed each connection that it held, once.
pub run-Trace :
    {W Conn : Type 0} (f : Callbacks W Conn) (s : Session) (w : W)
    → (forget f (run (logged f) s (w, [])) ≡ run f s w) × Trace (run (logged f) s (w, [])).1.1 none
unfolding run
run-Trace f s w = (
  run-forget f s w,
  finish-Trace f s.keepalive (rounds (logged f) s.keepalive (round_count f s.repeat) none (w, []))
      (rounds-IsEnd f s.keepalive (round_count f s.repeat) none (w, []) ((λ e. refl), nothing)),
)
