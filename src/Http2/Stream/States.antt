-- ===== src/Http2/Stream/States.antt =====
-- The state machine of pkg/http2/stream.go against the two directions of a stream.
use gtest.Common.{◌≡◌, refl, ◌∙◌, ap, Bool, true, false, not, ◌&&◌, ◌||◌, List, [], ◌∷◌, arith}
use gtest.Http2.Stream.{
  Stream, StreamState, idle, reserved_local, reserved_remote, open_, half_closed_local,
  half_closed_remote, closed, next_state, update_state,
}

-- Whether anything was sent or received, and which direction has ended.
pub record Directions : Type 0 where
  pub started : Bool
  pub sent_end : Bool
  pub received_end : Bool

-- A frame, by its END_STREAM flag and its direction.
pub record Event : Type 0 where
  pub end_stream : Bool
  pub sending : Bool

abbrev directions : Bool → Bool → Bool → Directions
directions a b c = record { started = a; sent_end = b; received_end = c }

unfoldable pub view : StreamState → Directions
view idle = directions false false false
view reserved_local = directions false false false
view reserved_remote = directions false false false
view open_ = directions true false false
view half_closed_local = directions true true false
view half_closed_remote = directions true false true
view closed = directions true true true

-- Each direction ends when its own END_STREAM passes, and stays ended.
unfoldable pub observe : Directions → Event → Directions
observe d v = record {
  started = true;
  sent_end = d.sent_end || (v.sending && v.end_stream);
  received_end = d.received_end || (not v.sending && v.end_stream);
}

abbrev pub IsOrdinary : StreamState → Type 0
IsOrdinary reserved_local = ⊥
IsOrdinary reserved_remote = ⊥
IsOrdinary _ = Unit {0}

-- In every state that is not reserved `UpdateState` does what the two directions say.
pub view-next_state :
    (st : StreamState) (v : Event)
    → IsOrdinary st
    → view (next_state st v.end_stream v.sending) ≡ observe (view st) v
unfolding view observe next_state
view-next_state idle v h = ground arith
view-next_state reserved_local v h = absurd h
view-next_state reserved_remote v h = absurd h
view-next_state open_ v h = ground arith
view-next_state half_closed_local v h = ground arith
view-next_state half_closed_remote v h = ground arith
view-next_state closed v h = ground arith

next_state-IsOrdinary :
    (st : StreamState) (v : Event)
    → IsOrdinary st
    → IsOrdinary (next_state st v.end_stream v.sending)
unfolding next_state
next_state-IsOrdinary idle v h = ground arith
next_state-IsOrdinary reserved_local v h = absurd h
next_state-IsOrdinary reserved_remote v h = absurd h
next_state-IsOrdinary open_ v h = ground arith
next_state-IsOrdinary half_closed_local v h = ground arith
next_state-IsOrdinary half_closed_remote v h = ground arith
next_state-IsOrdinary closed v h = tt

-- A sequence of calls of `UpdateState` on one stream.
unfoldable pub run : Stream → List Event → Stream
run s [] = s
run s (v ∷ vs) = run (update_state s v.end_stream v.sending) vs

unfoldable pub observe_all : Directions → List Event → Directions
observe_all d [] = d
observe_all d (v ∷ vs) = observe_all (observe d v) vs

view-run :
    (s : Stream) (vs : List Event)
    → IsOrdinary s.state
    → view (run s vs).state ≡ observe_all (view s.state) vs
unfolding run observe_all update_state
view-run s [] h = refl
view-run s (v ∷ vs) h =
    view-run (update_state s v.end_stream v.sending) vs (next_state-IsOrdinary s.state v h)
    ∙ ap (λ (d : Directions). observe_all d vs) (view-next_state s.state v h)

-- Whether END_STREAM passed in a direction.
unfoldable pub ended : Bool → List Event → Bool
ended sending [] = false
ended sending (v ∷ vs) =
    (v.end_stream && ((v.sending && sending) || (not v.sending && not sending))) || ended sending vs

observe_all-ended :
    (d : Directions) (vs : List Event)
    → ((observe_all d vs).sent_end ≡ (d.sent_end || ended true vs))
      × ((observe_all d vs).received_end ≡ (d.received_end || ended false vs))
unfolding observe_all observe ended
observe_all-ended d [] = ground arith
observe_all-ended d (v ∷ vs) = ground (arith, observe_all-ended (observe d v) vs)

abbrev pub is_closed : StreamState → Bool
is_closed closed = true
is_closed _ = false

closed-view : (st : StreamState) → is_closed st ≡ ((view st).sent_end && (view st).received_end)
unfolding view
closed-view closed = refl
closed-view _ = refl

-- A stream that starts idle is closed after a sequence of calls of `UpdateState` exactly when
-- END_STREAM has been both sent and received in it.
pub run-closed :
    (s : Stream) (vs : List Event)
    → s.state ≡ idle
    → is_closed (run s vs).state ≡ (ended true vs && ended false vs)
unfolding view
run-closed s vs h =
    let fresh : IsOrdinary s.state = rw h tt in
    closed-view (run s vs).state
    ∙ rw (view-run s vs fresh, h)
        (ground (arith, observe_all-ended (directions false false false) vs))
