-- ===== src/Http2/Handler/Linked.antt =====
-- The streams that a handler of pkg/http2/handler.go has started: the map of the contexts through starts,
-- waits and the steps of the goroutines.
use gtest.Common.{
  ℕ, zero, suc, ◌≡◌, refl, sym, ap, subst, ◌∙◌, inl, inr, List, [], ◌∷◌, ◌++◌, Option, none, some,
  ◌==◌, ==_iff, Bytes, length, get_elem?, set, Bool-cases, Option-cases,
}
use gtest.Common.Maps.{lookup, delete, lookup-insert, lookup-delete, number_key}
use gtest.Http2.Conn.{Conn}
use gtest.Http2.Commands.{Outcome, done, blocked, failed}
use gtest.Http2.Handler.{HandlerError}
use gtest.Http2.Handler.Scripts.{Durations, split, stream_line}
use gtest.Http2.Handler.Tasks.{
  Handler, StreamContext, new_handler, start_stream, wait_for_stream, wait_for_task,
  wait_for_script, run_script, task_at, task_after, step_task,
}

module _ {ℓ} {A : Type ℓ} where
  get_elem?-append :
      (xs ys : List A) (p : ℕ) {x : A} → get_elem? xs p ≡ some x → get_elem? (xs ++ ys) p ≡ some x
  get_elem?-append (y ∷ xs) ys zero e = e
  get_elem?-append (y ∷ xs) ys (suc p) e = get_elem?-append xs ys p e
  get_elem?-append [] ys p e = cc

  pub get_elem?-length : (xs : List A) (y : A) → get_elem? (xs ++ (y ∷ [])) (length xs) ≡ some y
  get_elem?-length [] y = refl
  get_elem?-length (x ∷ xs) y = get_elem?-length xs y

-- A context for each entry of the map, of the same stream.
abbrev pub Entry : List StreamContext → ℕ → ℕ → Type 0
Entry ts i p = (t : StreamContext) × (get_elem? ts p ≡ some t) × (t.stream_id ≡ i)

abbrev pub IsLinked : Handler → Type 0
IsLinked h = (i p : ℕ) → lookup i h.active_streams ≡ some p → Entry h.tasks i p

same_entry : {p q : ℕ} → some p ≡ some q → p ≡ q
same_entry e = cc

same_task : {t u : StreamContext} → some t ≡ some u → t ≡ u
same_task e = cc

start_stream-IsLinked :
    (h : Handler) (i : ℕ) (spec : Bytes) → IsLinked h → IsLinked (start_stream h i spec)
unfolding start_stream
start_stream-IsLinked h i spec linked j p e =
    let t : StreamContext = record { stream_id = i; script = split b'\n' spec; error = none } in
    elim (Bool-cases (i == j)) [
      | inl same ↦
          let found : some (length h.tasks) ≡ some p =
            rw same at (sym (lookup-insert i j (length h.tasks) h.active_streams) ∙ e) in
          (
            t,
            subst (λ q. get_elem? (h.tasks ++ (t ∷ [])) q ≡ some t) (same_entry found)
                (get_elem?-length h.tasks t),
            (==_iff i j).0 same,
          )
      | inr other ↦
          let (t', there, id) =
            linked j p
              (rw other at (sym (lookup-insert i j (length h.tasks) h.active_streams) ∙ e)) in
          (t', get_elem?-append h.tasks (t ∷ []) p there, id)
    ]

Entry-set :
    (ts : List StreamContext) (p : ℕ) (t t' : StreamContext) (i q : ℕ)
    → get_elem? ts p ≡ some t
    → t'.stream_id ≡ t.stream_id
    → Entry ts i q
    → Entry (set ts p t') i q
Entry-set (x ∷ ts) zero t t' i zero e same (u, there, id) =
    let one : u ≡ t = same_task (sym there ∙ e) in
    (t', refl, same ∙ ap (λ (x : StreamContext). x.stream_id) (sym one) ∙ id)
Entry-set (x ∷ ts) zero t t' i (suc q) e same entry = entry
Entry-set (x ∷ ts) (suc p) t t' i zero e same entry = entry
Entry-set (x ∷ ts) (suc p) t t' i (suc q) e same entry = Entry-set ts p t t' i q e same entry
Entry-set [] p t t' i q e same entry = absurd cc

task_after-stream_id :
    (lib : Durations) (t : StreamContext) (ls : List Bytes) (o : Outcome HandlerError)
    → (task_after lib t ls o).stream_id ≡ t.stream_id
task_after-stream_id lib t ls done = refl
task_after-stream_id lib t ls blocked = refl
task_after-stream_id lib t ls (failed e) = refl

run_script-IsLinked :
    (lib : Durations) (h : Handler) (p : ℕ) (t : StreamContext) (script : List Bytes)
    → get_elem? h.tasks p ≡ some t
    → IsLinked h
    → IsLinked (run_script lib h p t script)
run_script-IsLinked lib h p t [] there linked = linked
run_script-IsLinked lib h p t (l ∷ ls) there linked =
    let answer = (stream_line lib h.conn t.stream_id l).1 in
    λ i q e.
      Entry-set h.tasks p t (task_after lib t ls answer) i q there
        (task_after-stream_id lib t ls answer) (linked i q e)

step_task-IsLinked :
    (lib : Durations) (h : Handler) (p : ℕ) → IsLinked h → IsLinked (step_task lib h p)
unfolding step_task
step_task-IsLinked lib h p linked = elim (Option-cases (get_elem? h.tasks p)) [
  | inl e ↦ rw (step_task, e) linked
  | inr (t, e) ↦ rw (step_task, e) (run_script-IsLinked lib h p t t.script e linked)
]

pub none-some : {p : ℕ} → none ≡ some p → ⊥
none-some e = cc

delete-IsLinked :
    (h : Handler) (i : ℕ)
    → IsLinked h
    → IsLinked (record h { active_streams = delete i h.active_streams })
delete-IsLinked h i linked j p e =
    let e' = sym (lookup-delete i j h.active_streams) ∙ e in
    elim (Bool-cases (i == j)) [
      | inl same ↦ absurd (none-some (rw same at e'))
      | inr other ↦ linked j p (rw other at e')
    ]

wait_for_script-IsLinked :
    (h : Handler) (i : ℕ) (script : List Bytes) (error : Option HandlerError)
    → IsLinked h
    → IsLinked (wait_for_script h i script error).0
wait_for_script-IsLinked h i [] error linked = delete-IsLinked h i linked
wait_for_script-IsLinked h i (l ∷ ls) error linked = linked

wait_for_task-IsLinked :
    (h : Handler) (i : ℕ) (o : Option StreamContext) → IsLinked h → IsLinked (wait_for_task h i o).0
wait_for_task-IsLinked h i none linked = linked
wait_for_task-IsLinked h i (some t) linked = wait_for_script-IsLinked h i t.script t.error linked

-- What happens to a handler: a start, a wait, a line of some task, or a change of the connection by
-- anything else.
pub data Event : Type 0 where
  starts : ℕ → Bytes → Event
  waits : ℕ → Event
  steps : ℕ → Event
  receives : Conn → Event

abbrev pub after : Durations → Handler → Event → Handler
after lib h (starts i spec) = start_stream h i spec
after lib h (waits i) = (wait_for_stream h i).0
after lib h (steps p) = step_task lib h p
after lib h (receives c) = record h { conn = c }

abbrev pub after_all : Durations → Handler → List Event → Handler
after_all lib h [] = h
after_all lib h (e ∷ es) = after_all lib (after lib h e) es

after-IsLinked : (lib : Durations) (h : Handler) (e : Event) → IsLinked h → IsLinked (after lib h e)
unfolding wait_for_stream
after-IsLinked lib h (starts i spec) linked = start_stream-IsLinked h i spec linked
after-IsLinked lib h (waits i) linked =
    wait_for_task-IsLinked h i (task_at h.tasks (lookup i h.active_streams)) linked
after-IsLinked lib h (steps p) linked = step_task-IsLinked lib h p linked
after-IsLinked lib h (receives c) linked = linked

all-IsLinked :
    (lib : Durations) (h : Handler) (es : List Event) → IsLinked h → IsLinked (after_all lib h es)
all-IsLinked lib h [] linked = linked
all-IsLinked lib h (e ∷ es) linked =
    all-IsLinked lib (after lib h e) es (after-IsLinked lib h e linked)

-- From a new handler, whatever streams are started and waited for and however the lines of their
-- goroutines and changes of the connection come between, the map's entry for a stream is a context of
-- that stream.
pub after_all-IsLinked :
    (lib : Durations) (c : Conn) (incoming : Bytes) (es : List Event)
    → IsLinked (after_all lib (new_handler c incoming) es)
unfolding new_handler lookup
after_all-IsLinked lib c incoming es =
    all-IsLinked lib (new_handler c incoming) es (λ i p e. absurd (none-some e))
