-- ===== src/Tests/Session.antt =====
-- pkg/session/session.go at a session of three rounds.
use gtest.Common.{◌≡◌, ℕ, ◌+◌, ltb, [], none, some, codes, pos}
use gtest.Session.{Session, new_session, Callbacks, run}
use gtest.Session.Calls.{logged, forget}
use gtest.Session.Connections.{Trace, run-Trace}

-- A connection is a number, and processing the third one fails.
abbrev counting : Callbacks ℕ ℕ
counting = record {
  connect = λ n. (some (some n), n + 1);
  process = λ c n. (ltb n 3, c, n);
  disconnect = none;
  close = λ c n. n;
}

abbrev three_rounds : Session
three_rounds = record (new_session (codes "c1")) { repeat = pos 3 }

run-Trace_example :
    (forget counting (run (logged counting) three_rounds (0, [])) ≡ run counting three_rounds 0)
    × Trace (run (logged counting) three_rounds (0, [])).1.1 none
run-Trace_example = run-Trace counting three_rounds 0
