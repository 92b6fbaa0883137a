-- ===== src/Http2/Handler/Waiting.antt =====
-- What `waitForStream` of pkg/http2/handler.go waits for.
use gtest.Common.{
  ℕ, zero, suc, arith, subst, sym, ◌≡◌, ◌≢◌, refl, ap, ◌∙◌, inl, inr, true, List, [], ◌∷◌, Option,
  none, some, ◌==◌, ==_iff, if◌then◌else◌, Bytes, length, get_elem?, set, Bool-cases, Option-cases,
  All,
}
use gtest.Common.Maps.{lookup, lookup-insert, lookup-delete, number_key}
use gtest.Http2.Handler.{HandlerError, not_started}
use gtest.Http2.Handler.Scripts.{Durations, split, stream_line}
use gtest.Http2.Handler.Tasks.{
  Handler, StreamContext, Progress, ended_with, broken, waiting, start_stream, wait_for_stream,
  wait_for_script, run_script, task_after, step_task,
}
use gtest.Http2.Handler.Linked.{IsLinked, get_elem?-length}

-- Nothing is in the map for the stream, and the others are as they were.
abbrev pub IsTakenOut : ℕ → Handler → Handler → Type 0
IsTakenOut i h h' =
    (j : ℕ) → lookup j h'.active_streams ≡ (if i == j then none else lookup j h.active_streams)

wait_for_stream_gone :
    (h : Handler) (i : ℕ)
    → lookup i h.active_streams ≡ none
    → wait_for_stream h i ≡ (h, broken not_started)
unfolding wait_for_stream
wait_for_stream_gone h i e = rw (wait_for_stream, e)

gone-IsTakenOut : (h : Handler) (i : ℕ) → lookup i h.active_streams ≡ none → IsTakenOut i h h
gone-IsTakenOut h i e j = elim (Bool-cases (i == j)) [
  | inl same ↦ let k : i ≡ j = (==_iff i j).0 same in rw (same, ← k) e
  | inr other ↦ rw other
]

wait_for_script_once :
    (h : Handler) (i : ℕ) (script : List Bytes) (error : Option HandlerError)
    → (wait_for_script h i script error).1 ≢ waiting i
    → IsTakenOut i h (wait_for_script h i script error).0
wait_for_script_once h i [] error ends = λ j. lookup-delete i j h.active_streams
wait_for_script_once h i (l ∷ ls) error ends = absurd (ends refl)

wait_for_stream_there :
    (h : Handler) (i p : ℕ) (t : StreamContext)
    → lookup i h.active_streams ≡ some p
    → get_elem? h.tasks p ≡ some t
    → wait_for_stream h i ≡ wait_for_script h i t.script t.error
unfolding wait_for_stream
wait_for_stream_there h i p t e there = rw (wait_for_stream, e, there)

wait_for_stream-IsTakenOut :
    (h : Handler) (i : ℕ)
    → IsLinked h
    → (wait_for_stream h i).1 ≢ waiting i
    → IsTakenOut i h (wait_for_stream h i).0
wait_for_stream-IsTakenOut h i linked ends = elim (Option-cases (lookup i h.active_streams)) [
  | inl e ↦ rw (wait_for_stream_gone h i e) (gone-IsTakenOut h i e)
  | inr (p, e) ↦
      let (t, there, id) = linked i p e in
      let same = wait_for_stream_there h i p t e there in
      rw same (wait_for_script_once h i t.script t.error (rw same at ends))
]

-- On a handler whose map is linked to its tasks, a wait that comes to an end, well or with an error,
-- takes the stream out of the map and leaves the other streams there; a second wait is an error.
pub wait_for_stream_once :
    (h : Handler) (i : ℕ)
    → IsLinked h
    → (wait_for_stream h i).1 ≢ waiting i
    → IsTakenOut i h (wait_for_stream h i).0
      × (wait_for_stream (wait_for_stream h i).0 i ≡ ((wait_for_stream h i).0, broken not_started))
wait_for_stream_once h i linked ends =
    let out = wait_for_stream-IsTakenOut h i linked ends in
    let here : (i == i) ≡ true = (==_iff i i).1 refl in
    (out, wait_for_stream_gone (wait_for_stream h i).0 i (out i ∙ rw here))

get_elem?-set_other :
    (ts : List StreamContext) (p q : ℕ) (t : StreamContext)
    → p ≢ q
    → get_elem? (set ts p t) q ≡ get_elem? ts q
get_elem?-set_other [] p q t ne = refl
get_elem?-set_other (x ∷ ts) zero zero t ne = absurd (ne refl)
get_elem?-set_other (x ∷ ts) zero (suc q) t ne = refl
get_elem?-set_other (x ∷ ts) (suc p) zero t ne = refl
get_elem?-set_other (x ∷ ts) (suc p) (suc q) t ne =
    get_elem?-set_other ts p q t (λ e. ne (ap suc e))

pub split_cons : (sep : ℕ) (s : Bytes) → (l : Bytes) × (ls : List Bytes) × (split sep s ≡ l ∷ ls)
unfolding split
split_cons sep [] = ([], [], refl)
split_cons sep (c ∷ s) = elim (Bool-cases (c == sep)) [
  | inl e ↦ ([], split sep s, rw e refl)
  | inr e ↦ let (l, ls, rest) = split_cons sep s in (c ∷ l, ls, rw (e, rest) refl)
]

-- The map's task for a stream, with the whole of a specification to run.
record IsFresh (i n : ℕ) (spec : Bytes) (h : Handler) : Type 0 where
  pub t : StreamContext
  pub entry : lookup i h.active_streams ≡ some n
  pub there : get_elem? h.tasks n ≡ some t
  pub whole : t.script ≡ split b'\n' spec

start_stream-IsFresh :
    (h : Handler) (i : ℕ) (spec : Bytes) → IsFresh i (length h.tasks) spec (start_stream h i spec)
unfolding start_stream
start_stream-IsFresh h i spec =
    let t : StreamContext = record { stream_id = i; script = split b'\n' spec; error = none } in
    let here : (i == i) ≡ true = (==_iff i i).1 refl in
    record {
      t = t;
      entry = lookup-insert i i (length h.tasks) h.active_streams ∙ rw here;
      there = get_elem?-length h.tasks t;
      whole = refl;
    }

run_script-IsFresh :
    (lib : Durations) (i n : ℕ) (spec : Bytes) (h : Handler) (p : ℕ) (u : StreamContext)
    (script : List Bytes)
    → p ≢ n
    → IsFresh i n spec h
    → IsFresh i n spec (run_script lib h p u script)
run_script-IsFresh lib i n spec h p u [] ne fresh = fresh
run_script-IsFresh lib i n spec h p u (l ∷ ls) ne fresh = record {
  t = fresh.t;
  entry = fresh.entry;
  there =
      get_elem?-set_other h.tasks p n (task_after lib u ls (stream_line lib h.conn u.stream_id l).1)
        ne
      ∙ fresh.there;
  whole = fresh.whole;
}

step_task-IsFresh :
    (lib : Durations) (i n : ℕ) (spec : Bytes) (h : Handler) (p : ℕ)
    → p ≢ n
    → IsFresh i n spec h
    → IsFresh i n spec (step_task lib h p)
unfolding step_task
step_task-IsFresh lib i n spec h p ne fresh = elim (Option-cases (get_elem? h.tasks p)) [
  | inl e ↦ rw (step_task, e) fresh
  | inr (u, e) ↦ rw (step_task, e) (run_script-IsFresh lib i n spec h p u u.script ne fresh)
]

-- Lines of some tasks, one after the other.
abbrev pub step_tasks : Durations → Handler → List ℕ → Handler
step_tasks lib h [] = h
step_tasks lib h (p ∷ ps) = step_tasks lib (step_task lib h p) ps

step_tasks-IsFresh :
    (lib : Durations) (i n : ℕ) (spec : Bytes) (h : Handler) (ps : List ℕ)
    → All (λ p. p ≢ n) ps
    → IsFresh i n spec h
    → IsFresh i n spec (step_tasks lib h ps)
step_tasks-IsFresh lib i n spec h [] ne fresh = fresh
step_tasks-IsFresh lib i n spec h (p ∷ ps) (ne, nes) fresh =
    step_tasks-IsFresh lib i n spec (step_task lib h p) ps nes
      (step_task-IsFresh lib i n spec h p ne fresh)

fresh_waits :
    (i n : ℕ) (spec : Bytes) (h : Handler)
    → IsFresh i n spec h
    → wait_for_stream h i ≡ (h, waiting i)
unfolding wait_for_stream
fresh_waits i n spec h fresh =
    let (l, ls, e) = split_cons b'\n' spec in
    rw (wait_for_stream, fresh.entry, fresh.there, fresh.whole, e)

-- Whatever lines run, the map's task for the stream is one of its own.
record IsCurrent (i n : ℕ) (h : Handler) : Type 0 where
  pub entry : lookup i h.active_streams ≡ some n
  pub t : StreamContext
  pub there : get_elem? h.tasks n ≡ some t

fresh-IsCurrent : (i n : ℕ) (spec : Bytes) (h : Handler) → IsFresh i n spec h → IsCurrent i n h
fresh-IsCurrent i n spec h fresh = record { entry = fresh.entry; t = fresh.t; there = fresh.there }

get_elem?-set :
    (ts : List StreamContext) (p : ℕ) (t u : StreamContext)
    → get_elem? ts p ≡ some u
    → get_elem? (set ts p t) p ≡ some t
get_elem?-set [] p t u e = absurd cc
get_elem?-set (x ∷ ts) zero t u e = refl
get_elem?-set (x ∷ ts) (suc p) t u e = get_elem?-set ts p t u e

run_script-IsCurrent :
    (lib : Durations) (i n : ℕ) (h : Handler) (p : ℕ) (u : StreamContext) (script : List Bytes)
    → get_elem? h.tasks p ≡ some u
    → IsCurrent i n h
    → IsCurrent i n (run_script lib h p u script)
run_script-IsCurrent lib i n h p u [] here cur = cur
run_script-IsCurrent lib i n h p u (l ∷ ls) here cur =
    let u' = task_after lib u ls (stream_line lib h.conn u.stream_id l).1 in
    elim (Bool-cases (p == n)) [
      | inl e ↦
          let k : p ≡ n = (==_iff p n).0 e in
          record { entry = cur.entry; t = u'; there = rw (← k) (get_elem?-set h.tasks p u' u here) }
      | inr e ↦ record {
        entry = cur.entry;
        t = cur.t;
        there = get_elem?-set_other h.tasks p n u' (ground (arith, e)) ∙ cur.there;
      }
    ]

step_tasks-IsCurrent :
    (lib : Durations) (i n : ℕ) (h : Handler) (ps : List ℕ)
    → IsCurrent i n h
    → IsCurrent i n (step_tasks lib h ps)
step_tasks-IsCurrent lib i n h [] cur = cur
step_tasks-IsCurrent lib i n h (p ∷ ps) cur =
    step_tasks-IsCurrent lib i n (step_task lib h p) ps (elim (Option-cases (get_elem? h.tasks p)) [
      | inl e ↦ unfold step_task in rw e cur
      | inr (u, e) ↦ unfold step_task in rw e (run_script-IsCurrent lib i n h p u u.script e cur)
    ])

-- What a wait for one task says: it goes on exactly when that task has no line left, with the task's
-- error, and takes the stream out of the map; else it waits and changes nothing.
pub data IsAnswer (i : ℕ) (t : StreamContext) (h : Handler) : Handler × Progress → Type 0 where
  at_end :
      {h' : Handler}
      → t.script ≡ []
      → IsTakenOut i h h'
      → h'.tasks ≡ h.tasks
      → IsAnswer i t h (h', ended_with i t.error)
  not_yet : {l : Bytes} {ls : List Bytes} → t.script ≡ l ∷ ls → IsAnswer i t h (h, waiting i)

wait_for_script-IsAnswer :
    (h : Handler) (i : ℕ) (t : StreamContext) (script : List Bytes)
    → t.script ≡ script
    → IsAnswer i t h (wait_for_script h i script t.error)
wait_for_script-IsAnswer h i t [] e = at_end e (λ j. lookup-delete i j h.active_streams) refl
wait_for_script-IsAnswer h i t (l ∷ ls) e = not_yet e

-- A stream that is started, again or for the first time, gets a new task, the next one in place.
-- Whatever tasks run then, in whatever order and one of an earlier start of the same stream among them,
-- `waitForStream` answers by the new task alone: while that has a line left it waits and changes
-- nothing, whether the others are done or not, and once it has none, it ends with the new task's error
-- and takes the stream, and no other, out of the map, however many lines the others have left. Before
-- the new task runs it waits.
pub wait_for_stream_started :
    (lib : Durations) (h : Handler) (i : ℕ) (spec : Bytes) (ps qs : List ℕ)
    → All (λ p. p ≢ length h.tasks) ps
    → let h' = step_tasks lib (start_stream h i spec) ps in
      let h'' = step_tasks lib (start_stream h i spec) qs in
      (t : StreamContext) × (wait_for_stream h' i ≡ (h', waiting i))
      × (get_elem? h''.tasks (length h.tasks) ≡ some t)
      × IsAnswer i t h'' (wait_for_stream h'' i)
wait_for_stream_started lib h i spec ps qs ne =
    let n = length h.tasks in
    let started = start_stream-IsFresh h i spec in
    let h'' = step_tasks lib (start_stream h i spec) qs in
    let cur =
      step_tasks-IsCurrent lib i n (start_stream h i spec) qs
        (fresh-IsCurrent i n spec (start_stream h i spec) started) in
    (
      cur.t,
      fresh_waits i n spec (step_tasks lib (start_stream h i spec) ps)
          (step_tasks-IsFresh lib i n spec (start_stream h i spec) ps ne started),
      cur.there,
      subst (IsAnswer i cur.t h'') (sym (wait_for_stream_there h'' i n cur.t cur.entry cur.there))
          (wait_for_script-IsAnswer h'' i cur.t cur.t.script refl),
    )
