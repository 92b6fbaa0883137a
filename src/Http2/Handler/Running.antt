-- ===== src/Http2/Handler/Running.antt =====
-- How the lines of a stream's specification run (`runStream` of pkg/http2/handler.go), alone and between
-- the frames that the connection's loop processes.
use gtest.Common.Texts.{trim_space}
use gtest.Http2.Commands.{rx_resp}
use gtest.Http2.Commands.Frames.{rx_rst}
use gtest.Common.{
  Bool-cases, ℕ, ◌≡◌, refl, ap, ◌∙◌, ◌⊎◌, inl, inr, Bool, true, false, List, [], ◌∷◌, ◌++◌, some,
  if◌then◌else◌, Bytes, codes, bytes_eq,
}
use gtest.Http2.Frame.{Frame}
use gtest.Http2.Stream.{Stream, wait, get, modify}
use gtest.Http2.Conn.{Conn}
use gtest.Http2.Commands.{Outcome, done, blocked, failed, rx_req, rx_data, on_stream, waited}
use gtest.Http2.Handler.{HandlerError, tokenize_command}
use gtest.Http2.Handler.Actions.{Handled, lifted}
use gtest.Http2.Handler.Scripts.{
  Durations, Progress, is_skipped, stream_line, stream_command, process_stream_command, run_lines,
}

Outcome-cases :
    (o : Outcome HandlerError) → (o ≡ done) ⊎ (o ≡ blocked) ⊎ ((e : HandlerError) × (o ≡ failed e))
Outcome-cases done = inl refl
Outcome-cases blocked = inr (inl refl)
Outcome-cases (failed e) = inr (inr (e, refl))

module _ (lib : Durations) where
  -- What is left of a script goes on with more lines.
  abbrev pub and_then : ℕ → List Bytes → Conn × Progress → Conn × Progress
  and_then i more (c, (done, ls)) = run_lines lib c i (ls ++ more)
  and_then i more (c, (blocked, ls)) = (c, (blocked, ls ++ more))
  and_then i more (c, (failed e, ls)) = (c, (failed e, ls ++ more))

  -- Lines one after the other run as the first ones and then, where these come to their end, the others
  -- on the connection that they leave; where they block or fail, the others are left with the rest.
  pub run_lines-append :
      (c : Conn) (i : ℕ) (ls more : List Bytes)
      → run_lines lib c i (ls ++ more) ≡ and_then i more (run_lines lib c i ls)
  unfolding run_lines
  run_lines-append c i [] more = refl
  run_lines-append c i (l ∷ ls) more = elim (Outcome-cases (stream_line lib c i l).1) [
    | inl e ↦ rw (run_lines, e) (run_lines-append (stream_line lib c i l).0 i ls more)
    | inr (inl e) ↦ rw (run_lines, e)
    | inr (inr (x, e)) ↦ rw (run_lines, e)
  ]

-- The commands that only wait for a signal of their stream.
abbrev pub IsWait : Bytes → Type 0
IsWait cmd =
    (cmd ≡ codes "rxreq")
    ⊎ (cmd ≡ codes "rxresp")
    ⊎ (cmd ≡ codes "rxdata")
    ⊎ (cmd ≡ codes "rxhdrs")
    ⊎ (cmd ≡ codes "rxrst")

-- The connection with the stream's signal taken.
abbrev pub unsignalled : Conn → ℕ → Stream → Conn
unsignalled c i s = record c { streams = modify c.streams i (λ _. record s { signalled = false }) }

module _ (lib : Durations) (c : Conn) (i : ℕ) (s : Stream) (there : get c.streams i ≡ some s) where
  abbrev waits : Handled
  waits = lifted (on_stream c (get c.streams i) (λ s. waited c i (wait s)))

  rx_data_wait : lifted (rx_data c i).0 ≡ waits
  unfolding rx_data wait
  rx_data_wait = elim (Bool-cases s.signalled) [
    | inl e ↦ rw (rx_data, there, e)
    | inr e ↦ rw (rx_data, there, e)
  ]

  stream_command_wait :
      (cmd : Bytes) (args : List Bytes) → IsWait cmd → stream_command lib c i cmd args ≡ waits
  unfolding rx_req rx_resp rx_rst bytes_eq
  stream_command_wait cmd args (inl e) = rw e
  stream_command_wait cmd args (inr (inl e)) = rw e
  stream_command_wait cmd args (inr (inr (inl e))) = rw e rx_data_wait
  stream_command_wait cmd args (inr (inr (inr (inl e)))) = rw e
  stream_command_wait cmd args (inr (inr (inr (inr e)))) = rw e

  waits_lem : waits ≡ (if s.signalled then (unsignalled c i s, done) else (c, blocked))
  unfolding wait
  waits_lem = elim (Bool-cases s.signalled) [ inl e ↦ rw (there, e) | inr e ↦ rw (there, e) ]

-- What a line does decides how the run goes on.
run_lines-done :
    (lib : Durations) (c c' : Conn) (i : ℕ) (l : Bytes) (ls : List Bytes)
    → stream_line lib c i l ≡ (c', done)
    → run_lines lib c i (l ∷ ls) ≡ run_lines lib c' i ls
unfolding run_lines
run_lines-done lib c c' i l ls e =
    rw (run_lines, e) (ap (λ (r : Handled). run_lines lib r.0 i ls) e)

run_lines-blocked :
    (lib : Durations) (c c' : Conn) (i : ℕ) (l : Bytes) (ls : List Bytes)
    → stream_line lib c i l ≡ (c', blocked)
    → run_lines lib c i (l ∷ ls) ≡ (c', (blocked, l ∷ ls))
unfolding run_lines
run_lines-blocked lib c c' i l ls e =
    rw (run_lines, e) (ap (λ (r : Handled). (r.0, (blocked, l ∷ ls))) e)

run_lines_if :
    (lib : Durations) (c c' : Conn) (i : ℕ) (l : Bytes) (ls : List Bytes) (b : Bool)
    → stream_line lib c i l ≡ (if b then (c', done) else (c, blocked))
    → run_lines lib c i (l ∷ ls) ≡ (if b then run_lines lib c' i ls else (c, (blocked, l ∷ ls)))
run_lines_if lib c c' i l ls true e = run_lines-done lib c c' i l ls e
run_lines_if lib c c' i l ls false e = run_lines-blocked lib c c i l ls e

-- What a line that waits does: a script whose next line waits, on a stream that is there, stays where it is and changes nothing while
-- the stream is not signalled; else it takes the signal and goes on with the lines behind.
pub run_lines-wait :
    (lib : Durations) (c : Conn) (i : ℕ) (s : Stream) (l cmd : Bytes) (args ls : List Bytes)
    → get c.streams i ≡ some s
    → is_skipped (trim_space l) ≡ false
    → tokenize_command (trim_space l) ≡ cmd ∷ args
    → IsWait cmd
    → run_lines lib c i (l ∷ ls)
      ≡ (if s.signalled then run_lines lib (unsignalled c i s) i ls else (c, (blocked, l ∷ ls)))
unfolding stream_line process_stream_command
run_lines-wait lib c i s l cmd args ls there kept tokens which =
    run_lines_if lib c (unsignalled c i s) i l ls s.signalled (
      rw (kept, tokens)
        (stream_command_wait lib c i s there cmd args which ∙ waits_lem lib c i s there))
