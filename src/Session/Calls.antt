-- ===== src/Session/Calls.antt =====
-- The calls that a run of pkg/session/session.go makes, noted down.
use gtest.Common.{
  ℕ, zero, suc, ◌≡◌, refl, ap, ◌∙◌, Bool, true, false, List, [], ◌∷◌, Option, none, some, Result,
  ok, err,
}
use gtest.Session.{
  Session, SessionError, process_failed, Callbacks, disconnect_by, disconnect_if, close_if,
  connected, next_round, round_from, rounds, round_count, finish, run,
}

-- A call, with the connection that it is given and what it answers.
pub data Call (Conn : Type 0) : Type 0 where
  connect_failed : Call Conn
  connect : Option Conn → Call Conn
  process : Option Conn → Bool → Option Conn → Call Conn
  disconnect close : Conn → Call Conn

-- What is outside, with the calls so far, the newest one first.
abbrev pub Logged : Type 0 → Type 0 → Type 0
Logged W Conn = W × List (Call Conn)

module _ {W Conn : Type 0} where
  abbrev pub log_connect :
      Option (Option Conn) × W → List (Call Conn) → Option (Option Conn) × Logged W Conn
  log_connect (none, w) cs = (none, (w, connect_failed ∷ cs))
  log_connect (some conn, w) cs = (some conn, (w, connect conn ∷ cs))

  abbrev pub log_process :
      Option Conn → Bool × Option Conn × W → List (Call Conn) → Bool × Option Conn × Logged W Conn
  log_process conn (passed, next, w) cs = (passed, next, (w, process conn passed next ∷ cs))

  abbrev pub log_disconnect : Option (Conn → W → W) → Option (Conn → Logged W Conn → Logged W Conn)
  log_disconnect none = none
  log_disconnect (some g) = some (λ c x. (g c x.0, disconnect c ∷ x.1))

  -- The same functions, which also note down their calls.
  abbrev pub logged : Callbacks W Conn → Callbacks (Logged W Conn) Conn
  logged f = record {
    connect = λ x. log_connect (f.connect x.0) x.1;
    process = λ conn x. log_process conn (f.process conn x.0) x.1;
    disconnect = log_disconnect f.disconnect;
    close = λ c x. (f.close c x.0, close c ∷ x.1);
  }

module _ {W Conn : Type 0} (f : Callbacks W Conn) where
  -- An answer without the notes.
  abbrev pub forget : {A : Type 0} → A × Logged W Conn → A × W
  forget (a, x) = (a, x.0)

  disconnect_by-forget :
      (g : Option (Conn → W → W)) (c : Conn) (x : Logged W Conn)
      → (disconnect_by (logged f) (log_disconnect g) c x).0 ≡ disconnect_by f g c x.0
  disconnect_by-forget none c x = refl
  disconnect_by-forget (some g) c x = refl

  disconnect_if-forget :
      (conn : Option Conn) (x : Logged W Conn)
      → (disconnect_if (logged f) conn x).0 ≡ disconnect_if f conn x.0
  disconnect_if-forget none x = refl
  disconnect_if-forget (some c) x = disconnect_by-forget f.disconnect c x

  close_if-forget :
      (conn : Option Conn) (x : Logged W Conn)
      → (close_if (logged f) conn x).0 ≡ close_if f conn x.0
  close_if-forget none x = refl
  close_if-forget (some c) x = refl

  -- The rest of a loop, with the notes and without.
  abbrev IsSame :
      (Option Conn → Logged W Conn → Result SessionError (Option Conn) × Logged W Conn)
      → (Option Conn → W → Result SessionError (Option Conn) × W)
      → Type 0
  IsSame noted more =
      (conn : Option Conn) (x : Logged W Conn) → forget (noted conn x) ≡ more conn x.0

  module _ (keepalive : Bool)
      (noted : Option Conn → Logged W Conn → Result SessionError (Option Conn) × Logged W Conn)
      (more : Option Conn → W → Result SessionError (Option Conn) × W)
      (same : IsSame noted more) where
    after_round-forget :
        (keeps passed : Bool) (conn : Option Conn) (x : Logged W Conn)
        → forget (next_round (logged f) keeps noted (passed, conn, x))
          ≡ next_round f keeps more (passed, conn, x.0)
    after_round-forget keeps false conn x =
        ap (λ w. (err process_failed, w)) (close_if-forget conn x)
    after_round-forget true true conn x = same conn x
    after_round-forget false true conn x =
        same none (disconnect_if (logged f) conn x) ∙ ap (more none) (disconnect_if-forget conn x)

    connected_round-forget :
        (r : Option (Option Conn) × W) (cs : List (Call Conn))
        → forget (round_from (logged f) keepalive noted (log_connect r cs))
          ≡ round_from f keepalive more r
    connected_round-forget (none, w) cs = refl
    connected_round-forget (some conn, w) cs =
        after_round-forget keepalive (f.process conn w).0 (f.process conn w).1 (
          (f.process conn w).2,
          process conn (f.process conn w).0 (f.process conn w).1 ∷ connect conn ∷ cs,
        )

    round-forget :
        (conn : Option Conn) (x : Logged W Conn)
        → forget (round_from (logged f) keepalive noted (connected (logged f) conn x))
          ≡ round_from f keepalive more (connected f conn x.0)
    round-forget none x = connected_round-forget (f.connect x.0) x.1
    round-forget (some c) x =
        after_round-forget keepalive (f.process (some c) x.0).0 (f.process (some c) x.0).1 (
          (f.process (some c) x.0).2,
          process (some c) (f.process (some c) x.0).0 (f.process (some c) x.0).1 ∷ x.1,
        )

  rounds-forget :
      (keepalive : Bool) (n : ℕ) → IsSame (rounds (logged f) keepalive n) (rounds f keepalive n)
  unfolding rounds
  rounds-forget keepalive zero conn x = refl
  rounds-forget keepalive (suc n) conn x =
      round-forget keepalive (rounds (logged f) keepalive n) (rounds f keepalive n)
        (rounds-forget keepalive n) conn x

  finish-forget :
      (keepalive : Bool) (r : Result SessionError (Option Conn)) (x : Logged W Conn)
      → forget (finish (logged f) keepalive (r, x)) ≡ finish f keepalive (r, x.0)
  finish-forget keepalive (err e) x = refl
  finish-forget true (ok conn) x = ap (λ w. (ok tt, w)) (disconnect_if-forget conn x)
  finish-forget false (ok conn) x = refl

  -- Noting the calls down changes nothing else.
  pub run-forget : (s : Session) (w : W) → forget (run (logged f) s (w, [])) ≡ run f s w
  unfolding run
  run-forget s w =
      let r = rounds (logged f) s.keepalive (round_count f s.repeat) none (w, []) in
      finish-forget s.keepalive r.0 r.1
      ∙ ap (finish f s.keepalive) (rounds-forget s.keepalive (round_count f s.repeat) none (w, []))
