-- ===== src/Tests/Barrier.antt =====
-- pkg/barrier with three participants, of whom two are needed.
use gtest.Common.{ℕ, suc, ◌≡◌, refl, [], ◌∷◌, false, pos, set, arith}
use gtest.Barrier.{Barrier, System, Step, outside, waiting, arrive, enter}
use gtest.Barrier.Safety.{IsSafe, waiters}
use gtest.Barrier.Steps.{here, then_, Run-IsSafe, stale_time_out}

abbrev pair_barrier : ℕ → Barrier
pair_barrier k = record {
  name = [];
  count = 2;
  timeout = 30;
  cyclic = false;
  current = pos 0;
  cycle = k;
}

abbrev fresh : System
fresh = record { barrier = pair_barrier 0; participants = outside ∷ outside ∷ [] }

fresh-IsSafe : IsSafe fresh
unfolding waiters
fresh-IsSafe = record { counted = refl; fewer = omega arith; past = (tt, (tt, tt)) }

abbrev entered : System
entered = record {
  barrier = (arrive fresh.barrier).0;
  participants = set fresh.participants 0 (arrive fresh.barrier).1;
}

Run-IsSafe_example : IsSafe entered
Run-IsSafe_example = Run-IsSafe fresh-IsSafe (then_ here (enter 0 refl refl) tt)

-- The first is released and not yet woken, the second waits in the new cycle.
abbrev stale : System
stale = record {
  barrier = record (pair_barrier 1) { current = pos 1 };
  participants = waiting 0 ∷ waiting 1 ∷ outside ∷ [];
}

stale-IsSafe : IsSafe stale
unfolding waiters
stale-IsSafe = record {
  counted = refl;
  fewer = omega arith;
  past = (omega arith, (omega arith, (tt, tt)));
}

IsShort : System → Type 0
IsShort s =
    (t : System) × Step s t
    × (suc (waiters s.barrier.cycle t.participants) ≡ s.barrier.count)
    × ((arrive t.barrier).1 ≡ waiting s.barrier.cycle)

stale_time_out_example : IsShort stale
unfolding IsShort waiters
stale_time_out_example = stale_time_out stale 0 0 stale-IsSafe refl (omega arith) refl
