-- ===== src/Barrier/Steps.antt =====
-- The steps of a barrier's participants (pkg/barrier/barrier.go) keep the counter right, as long as
-- no timeout fires on a participant whose cycle is over; one that does leaves the counter short.
use gtest.Common.{
  ℕ, zero, suc, ◌+◌, ◌<◌, ◌≡◌, refl, sym, ap, ◌∙◌, subst, some, arith, true, false, pos, get_elem?,
  set,
}
use native.Mathlib.Decide.{ℕ_discrete}
use gtest.Barrier.{
  outside, waiting, released, timed_out, System, Step, enter, wake, time_out, call_reset, arrive,
  wakes, expire, reset, decr, incr, reaches,
}
use gtest.Barrier.Safety.{
  waiters, IsSafe, waiters-set, waiters_future, IsPast-set, IsPast-later, IsPast-at, wakes_iff,
  arrive_last, arrive_waits,
}

module _ (s : System) (h : IsSafe s) where
  enter-IsSafe :
      (i : ℕ)
      → get_elem? s.participants i ≡ some outside
      → IsSafe (record {
        barrier = (arrive s.barrier).0;
        participants = set s.participants i (arrive s.barrier).1;
      })
  enter-IsSafe i e =
      elim (ℕ_discrete (suc (waiters s.barrier.cycle s.participants)) s.barrier.count) [
        | yes last ↦
            let k = s.barrier.cycle in
            let none = waiters_future k (k + 1) s.participants (omega arith) h.past in
            rw (arrive_last s h last) (record {
              counted =
                  ap pos (omega (arith, none, waiters-set (k + 1) s.participants i released e));
              fewer = omega (arith, none, h.fewer, waiters-set (k + 1) s.participants i released e);
              past =
                  IsPast-set (k + 1) s.participants i released tt
                    (IsPast-later k s.participants h.past);
            })
        | no more ↦
            let k = s.barrier.cycle in
            let one = waiters-set k s.participants i (waiting k) e in
            rw (arrive_waits s h more) (record {
              counted = ap pos (ground (arith, one));
              fewer = ground (arith, h.fewer, one, more);
              past = IsPast-set k s.participants i (waiting k) (omega arith) h.past;
            })
      ]

  wake-IsSafe :
      (i c : ℕ)
      → get_elem? s.participants i ≡ some (waiting c)
      → wakes s.barrier c ≡ true
      → IsSafe (record s { participants = set s.participants i released })
  wake-IsSafe i c e w =
      let k = s.barrier.cycle in
      let over : c < k = (wakes_iff s h c (IsPast-at k s.participants i e h.past)).0 w in
      let same = waiters-set k s.participants i released e in
      record {
        counted = h.counted ∙ ap pos (ground (arith, same));
        fewer = ground (arith, h.fewer, same);
        past = IsPast-set k s.participants i released tt h.past;
      }

  reset-IsSafe : IsSafe (record s { barrier = reset s.barrier })
  unfolding reset
  reset-IsSafe =
      let k = s.barrier.cycle in
      let none = waiters_future k (k + 1) s.participants (omega arith) h.past in
      record {
        counted = ap pos (sym none);
        fewer = omega (arith, none, h.fewer);
        past = IsPast-later k s.participants h.past;
      }

  time_out-IsSafe :
      (i : ℕ)
      → get_elem? s.participants i ≡ some (waiting s.barrier.cycle)
      → IsSafe
          (record { barrier = expire s.barrier; participants = set s.participants i timed_out })
  unfolding expire
  time_out-IsSafe i e =
      let k = s.barrier.cycle in
      let one : waiters k s.participants ≡ suc (waiters k (set s.participants i timed_out)) =
        ground (arith, waiters-set k s.participants i timed_out e) in
      record {
        counted = rw (h.counted, one);
        fewer = omega (arith, h.fewer, one);
        past = IsPast-set k s.participants i timed_out tt h.past;
      }

-- A step in which no timeout fires on a participant whose cycle is over.
abbrev pub IsTimely : {s t : System} → Step s t → Type 0
IsTimely (enter i e d) = Unit {0}
IsTimely (wake i c e w d) = Unit {0}
IsTimely {s} (time_out i c e d) = c ≡ s.barrier.cycle
IsTimely (call_reset d) = Unit {0}

Step-IsSafe : {s t : System} (st : Step s t) → IsTimely st → IsSafe s → IsSafe t
Step-IsSafe {s} (enter i e d) l h = subst IsSafe (sym d) (enter-IsSafe s h i e)
Step-IsSafe {s} (wake i c e w d) l h = subst IsSafe (sym d) (wake-IsSafe s h i c e w)
Step-IsSafe {s} (time_out i c e d) l h =
    subst IsSafe (sym d) (time_out-IsSafe s h i (e ∙ ap (λ (k : ℕ). some (waiting k)) l))
Step-IsSafe {s} (call_reset d) l h = subst IsSafe (sym d) (reset-IsSafe s h)

-- Runs of timely steps.
pub data Run (s : System) : System → Type 0 where
  here : Run s s
  then_ : {t u : System} → Run s t → (st : Step t u) → IsTimely st → Run s u

-- A run from a safe state, in which no timeout fires on a participant whose cycle is over, ends in
-- a safe state: the counter is the number of those who wait in the present cycle, they are fewer
-- than the barrier needs, and nobody waits for a cycle to come.
pub Run-IsSafe : {s t : System} → IsSafe s → Run s t → IsSafe t
Run-IsSafe h here = h
Run-IsSafe h (then_ r st l) = Step-IsSafe st l (Run-IsSafe h r)

expired_blocks :
    (s : System)
    → IsSafe s
    → suc (waiters s.barrier.cycle s.participants) ≡ s.barrier.count
    → (arrive (expire s.barrier)).1 ≡ waiting s.barrier.cycle
unfolding arrive expire
expired_blocks s h e = short (waiters s.barrier.cycle s.participants) refl
  where
    short :
        (w : ℕ)
        → waiters s.barrier.cycle s.participants ≡ w
        → (arrive (expire s.barrier)).1 ≡ waiting s.barrier.cycle
    short zero z =
        let not_full : reaches (incr (decr s.barrier.current)) s.barrier.count ≡ false =
          rw (h.counted, z) (ground arith) in
        rw not_full
    short (suc w) z =
        let not_full : reaches (incr (decr s.barrier.current)) s.barrier.count ≡ false =
          rw (h.counted, z) (ground arith) in
        rw not_full

-- In a safe state, where a participant waits whose cycle is over, and those who wait in the
-- present cycle lack one of the number that the barrier needs: a timeout can fire on that
-- participant. It leaves as many waiting in the present cycle, but the next to arrive, who makes
-- up the number, is not let through and waits.
pub stale_time_out :
    (s : System) (i c : ℕ)
    → IsSafe s
    → get_elem? s.participants i ≡ some (waiting c)
    → c < s.barrier.cycle
    → suc (waiters s.barrier.cycle s.participants) ≡ s.barrier.count
    → (t : System) × Step s t
      × (suc (waiters s.barrier.cycle t.participants) ≡ s.barrier.count)
      × ((arrive t.barrier).1 ≡ waiting s.barrier.cycle)
stale_time_out s i c h e over full = (
  record { barrier = expire s.barrier; participants = set s.participants i timed_out },
  time_out i c e refl,
  ground (arith, full, waiters-set s.barrier.cycle s.participants i timed_out e),
  expired_blocks s h full,
)
