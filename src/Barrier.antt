-- ===== src/Barrier.antt =====
-- pkg/barrier/barrier.go: the barrier, and its participants as interleaved steps. Every access to
-- the barrier is one critical section under its mutex, and one step here.
pub mod Safety
pub mod Steps
use gtest.Common.{
  ℕ, zero, suc, ◌+◌, ◌≤◌, ◌≡◌, ◌≢◌, Bool, true, false, not, ◌&&◌, ◌||◌, List, [], ◌∷◌, Option, none,
  some, ◌==◌, leb, ltb, if◌then◌else◌, Bytes, ℤ, pos, negsuc, get_elem?, set, Result, ok, err,
}

-- `timeout` is in nanoseconds. `current` is an int, which `WaitTimeout` can take below 0.
pub record Barrier : Type 0 where
  pub name : Bytes
  pub count : ℕ
  pub timeout : ℕ
  pub cyclic : Bool
  pub current : ℤ
  pub cycle : ℕ

unfoldable pub new_barrier : Bytes → Barrier
new_barrier n = record {
  name = n;
  count = 1;
  timeout = 30_000_000_000;
  cyclic = false;
  current = pos 0;
  cycle = 0;
}

pub data StartError : Type 0 where
  count_below_one : StartError

-- `Start` at an int.
unfoldable pub start : Barrier → ℤ → Result StartError Barrier
start b (pos zero) = err count_below_one
start b (pos (suc n)) = ok (record b { count = suc n; current = pos 0; cycle = 0 })
start b (negsuc n) = err count_below_one

abbrev pub incr : ℤ → ℤ
incr (pos n) = pos (suc n)
incr (negsuc zero) = pos 0
incr (negsuc (suc n)) = negsuc n

abbrev pub decr : ℤ → ℤ
decr (pos zero) = negsuc 0
decr (pos (suc n)) = pos n
decr (negsuc n) = negsuc (suc n)

-- `i >= n`, for a count n that is not negative.
abbrev pub reaches : ℤ → ℕ → Bool
reaches (pos i) n = leb n i
reaches (negsuc i) n = false

-- A participant. `waiting` holds the cycle that it arrived in.
pub data Participant : Type 0 where
  outside : Participant
  waiting : ℕ → Participant
  released : Participant
  timed_out : Participant

-- The first critical section of `WaitTimeout`, up to the select: the last one to arrive releases
-- the others and returns, the others go on to wait.
unfoldable pub arrive : Barrier → Barrier × Participant
arrive b =
    if reaches (incr b.current) b.count
    then (record b { current = pos 0; cycle = b.cycle + 1 }, released)
    else (record b { current = incr b.current }, waiting b.cycle)

-- The test of the waiting loop, negated: whether a participant of that cycle goes on.
unfoldable pub wakes : Barrier → ℕ → Bool
wakes b c = not (b.cycle == c && not (reaches b.current b.count))

-- The critical section of the timeout branch.
unfoldable pub expire : Barrier → Barrier
expire b = record b { current = decr b.current }

unfoldable pub set_timeout : Barrier → ℕ → Barrier
set_timeout b t = record b { timeout = t }

unfoldable pub reset : Barrier → Barrier
reset b = record b { current = pos 0; cycle = b.cycle + 1 }

pub record System : Type 0 where
  pub barrier : Barrier
  pub participants : List Participant

-- One step of participant i, or a call of `Reset`. A timeout can fire at any moment of the wait,
-- also when the participant has been released and not yet woken.
pub data Step (s : System) : System → Type 0 where
  enter :
      {t : System} (i : ℕ)
      → get_elem? s.participants i ≡ some outside
      → t ≡ record {
        barrier = (arrive s.barrier).0;
        participants = set s.participants i (arrive s.barrier).1;
      }
      → Step s t
  wake :
      {t : System} (i c : ℕ)
      → get_elem? s.participants i ≡ some (waiting c)
      → wakes s.barrier c ≡ true
      → t ≡ record s { participants = set s.participants i released }
      → Step s t
  time_out :
      {t : System} (i c : ℕ)
      → get_elem? s.participants i ≡ some (waiting c)
      → t ≡ record { barrier = expire s.barrier; participants = set s.participants i timed_out }
      → Step s t
  call_reset : {t : System} → t ≡ record s { barrier = reset s.barrier } → Step s t
