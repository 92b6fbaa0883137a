-- ===== src/Barrier/Safety.antt =====
-- The participants of a barrier (pkg/barrier/barrier.go): who is let through, and when.
use gtest.Common.{
  ℕ, zero, suc, ◌+◌, ◌≤◌, ◌<◌, ◌≡◌, ◌≢◌, refl, ap, subst, true, false, List, [], ◌∷◌, some, arith,
  ◌==◌, if◌then◌else◌, pos, get_elem?, set, All,
}
use mathlib.Core.Logic.{◌↔◌}
use native.Mathlib.Decide.{ℕ_discrete}
use gtest.Barrier.{
  Barrier, Participant, outside, waiting, released, timed_out, System, arrive, wakes, incr, reaches,
}

abbrev pub waits_for : ℕ → Participant → ℕ
waits_for c (waiting d) = if c == d then 1 else 0
waits_for c _ = 0

-- How many participants wait for the end of a cycle.
unfoldable pub waiters : ℕ → List Participant → ℕ
waiters c [] = 0
waiters c (p ∷ ps) = waits_for c p + waiters c ps

abbrev pub IsPast : ℕ → Participant → Type 0
IsPast k (waiting c) = c ≤ k
IsPast k _ = Unit {0}

-- The counter is the number of those who wait in the present cycle, they are fewer than the barrier
-- needs, and nobody waits for a cycle to come.
pub record IsSafe (s : System) : Type 0 where
  pub counted : s.barrier.current ≡ pos (waiters s.barrier.cycle s.participants)
  pub fewer : waiters s.barrier.cycle s.participants < s.barrier.count
  pub past : All (IsPast s.barrier.cycle) s.participants

some_same : {p q : Participant} → some p ≡ some q → p ≡ q
some_same e = cc

pub waiters-set :
    (c : ℕ) (ps : List Participant) (i : ℕ) {p : Participant} (q : Participant)
    → get_elem? ps i ≡ some p
    → waiters c (set ps i q) + waits_for c p ≡ waiters c ps + waits_for c q
unfolding waiters
waiters-set c [] i q e = cc
waiters-set c (r ∷ ps) zero {p} q e = let same : r ≡ p = cc in rw same (omega arith)
waiters-set c (r ∷ ps) (suc i) q e = omega (arith, waiters-set c ps i q e)

pub waiters_future :
    (k c : ℕ) (ps : List Participant) → k < c → All (IsPast k) ps → waiters c ps ≡ 0
unfolding waiters
waiters_future k c [] h a = refl
waiters_future k c (outside ∷ ps) h (p, a) = omega (arith, waiters_future k c ps h a)
waiters_future k c (waiting d ∷ ps) h (p, a) = ground (arith, waiters_future k c ps h a)
waiters_future k c (released ∷ ps) h (p, a) = omega (arith, waiters_future k c ps h a)
waiters_future k c (timed_out ∷ ps) h (p, a) = omega (arith, waiters_future k c ps h a)

pub IsPast-set :
    (k : ℕ) (ps : List Participant) (i : ℕ) (q : Participant)
    → IsPast k q
    → All (IsPast k) ps
    → All (IsPast k) (set ps i q)
IsPast-set k [] i q h a = tt
IsPast-set k (p ∷ ps) zero q h a = (h, a.1)
IsPast-set k (p ∷ ps) (suc i) q h a = (a.0, IsPast-set k ps i q h a.1)

pub IsPast-at :
    (k : ℕ) (ps : List Participant) (i : ℕ) {p : Participant}
    → get_elem? ps i ≡ some p
    → All (IsPast k) ps
    → IsPast k p
IsPast-at k [] i e a = absurd (let n : ⊥ = cc in n)
IsPast-at k (q ∷ ps) zero e a = let same : q ≡ _ = some_same e in subst (IsPast k) same a.0
IsPast-at k (q ∷ ps) (suc i) e a = IsPast-at k ps i e a.1

later : (k : ℕ) (p : Participant) → IsPast k p → IsPast (k + 1) p
later k outside h = tt
later k (waiting c) h = omega arith
later k released h = tt
later k timed_out h = tt

pub IsPast-later : (k : ℕ) (ps : List Participant) → All (IsPast k) ps → All (IsPast (k + 1)) ps
IsPast-later k [] a = tt
IsPast-later k (p ∷ ps) a = (later k p a.0, IsPast-later k ps a.1)

not_waiting : {q : Participant} {c : ℕ} → q ≡ waiting c → q ≡ released → ⊥
not_waiting p q = cc

module _ (s : System) (h : IsSafe s) where
  pub arrive_last :
      suc (waiters s.barrier.cycle s.participants) ≡ s.barrier.count
      → arrive s.barrier
        ≡ (record s.barrier { current = pos 0; cycle = s.barrier.cycle + 1 }, released)
  unfolding arrive
  arrive_last e =
      let full : reaches (incr s.barrier.current) s.barrier.count ≡ true =
        rw h.counted (ground arith) in
      rw full

  pub arrive_waits :
      suc (waiters s.barrier.cycle s.participants) ≢ s.barrier.count
      → arrive s.barrier ≡ (
        record s.barrier { current = pos (suc (waiters s.barrier.cycle s.participants)) },
        waiting s.barrier.cycle,
      )
  unfolding arrive
  arrive_waits ne =
      let room : suc (waiters s.barrier.cycle s.participants) < s.barrier.count =
        omega (arith, h.fewer) in
      let not_full : reaches (incr s.barrier.current) s.barrier.count ≡ false =
        rw h.counted (ground arith) in
      rw not_full (rw h.counted)

  -- In a safe state, a participant that arrives is let through at once exactly when, with those
  -- who wait in the present cycle, it makes up the number that the barrier needs.
  pub arrive-released_iff :
      ((arrive s.barrier).1 ≡ released)
      ↔ (suc (waiters s.barrier.cycle s.participants) ≡ s.barrier.count)
  arrive-released_iff = (
    λ e. elim (ℕ_discrete (suc (waiters s.barrier.cycle s.participants)) s.barrier.count) [
      | yes same ↦ same
      | no ne ↦
          absurd
            (let w = arrive_waits ne in not_waiting (ap (λ (r : Barrier × Participant). r.1) w) e)
    ],
    λ e. ap (λ (r : Barrier × Participant). r.1) (arrive_last e),
  )

  -- In a safe state, whoever waits in a cycle that is not to come goes on exactly when that
  -- cycle is over.
  pub wakes_iff : (c : ℕ) → c ≤ s.barrier.cycle → (wakes s.barrier c ≡ true) ↔ (c < s.barrier.cycle)
  unfolding wakes
  wakes_iff c past =
      let not_full : reaches s.barrier.current s.barrier.count ≡ false =
        rw h.counted (ground (arith, h.fewer)) in
      rw not_full (λ e. ground arith, λ e. ground arith)
