-- ===== src/Http2/Handler/Scripts.antt =====
-- Specifications of pkg/http2/handler.go: lines of commands, on the connection and on a stream. A stream
-- that is started runs in a goroutine, which is a task here and takes one step for each of its lines.
-- A command that blocks leaves its line in place, to be run again.
use gtest.Common.{
  ℕ, zero, suc, ◌-◌, Bool, true, false, ◌||◌, List, [], ◌∷◌, ◌++◌, ◌==◌, if◌then◌else◌, Bytes,
  codes, bytes_eq, length,
}
use gtest.Common.Maps.{number_key}
use gtest.Common.Strings.{has_prefix, contains}
use gtest.Common.Texts.{trim_space}
use gtest.Http2.Stream.{get, wait}
use gtest.Http2.Conn.{Conn}
use gtest.Http2.Commands.{
  Outcome, done, blocked, failed, rx_req, rx_resp, rx_data, on_stream, waited,
}
use gtest.Http2.Commands.Frames.{rx_rst}
use gtest.Http2.Handler.{
  HandlerError, missing_argument, bad_duration, unknown_command, stream_failed, tokenize_command,
}
use gtest.Http2.Handler.Actions.{Handled, lifted, handle_tx_req, handle_tx_resp, handle_tx_data}
use gtest.Http2.Handler.FrameActions.{
  handle_tx_prio, handle_tx_rst, handle_tx_winup, handle_tx_ping, handle_tx_go_away,
  handle_send_hex, handle_expect,
}

-- `time.ParseDuration` and `strconv.ParseFloat`: whether they read a text.
pub record Durations : Type 0 where
  pub is_duration : Bytes → Bool
  pub is_float : Bytes → Bool

-- The loop that a specification's lines go through.
abbrev pub is_skipped : Bytes → Bool
is_skipped line = bytes_eq line [] || has_prefix line (codes "#")

-- `strings.Split` at a byte.
abbrev pub put_first : ℕ → List Bytes → List Bytes
put_first c [] = (c ∷ []) ∷ []
put_first c (l ∷ ls) = (c ∷ l) ∷ ls

unfoldable pub split : ℕ → Bytes → List Bytes
split sep [] = [] ∷ []
split sep (c ∷ s) = let rest = split sep s in if c == sep then [] ∷ rest else put_first c rest

-- `strings.ReplaceAll` of a pattern that is not empty, where `skip` bytes of it are still to be passed.
unfoldable pub replace_from : (skip : ℕ) → Bytes → Bytes → Bytes → Bytes
replace_from skip p r [] = []
replace_from (suc k) p r (c ∷ s) = replace_from k p r s
replace_from zero p r (c ∷ s) = elim (has_prefix (c ∷ s) p) [
  | true ↦ r ++ replace_from (length p - 1) p r s
  | false ↦ c ∷ replace_from 0 p r s
]

-- How a run of lines ends, and the lines left.
abbrev pub Progress : Type 0
Progress = Outcome HandlerError × List Bytes

module _ (lib : Durations) where
  unfoldable pub handle_delay : Conn → List Bytes → Handled
  handle_delay c [] = (c, failed missing_argument)
  handle_delay c (a ∷ args) =
      let text = if contains a (codes "s") || contains a (codes "m") then a else a ++ codes "s" in
      if lib.is_duration text || lib.is_float a then (c, done) else (c, failed bad_duration)

  -- The switch of `ProcessStreamCommand`.
  abbrev pub stream_command : Conn → ℕ → Bytes → List Bytes → Handled
  stream_command c i cmd args =
      if bytes_eq cmd (codes "txreq")
      then handle_tx_req c i args
      else if bytes_eq cmd (codes "txresp")
      then handle_tx_resp c i args
      else if bytes_eq cmd (codes "rxreq")
      then lifted (rx_req c i)
      else if bytes_eq cmd (codes "rxresp")
      then lifted (rx_resp c i)
      else if bytes_eq cmd (codes "txdata")
      then handle_tx_data c i args
      else if bytes_eq cmd (codes "rxdata")
      then lifted (rx_data c i).0
      else if bytes_eq cmd (codes "rxhdrs")
      then lifted (on_stream c (get c.streams i) (λ s. waited c i (wait s)))
      else if bytes_eq cmd (codes "txprio")
      then handle_tx_prio c i args
      else if bytes_eq cmd (codes "txrst")
      then handle_tx_rst c i args
      else if bytes_eq cmd (codes "txping")
      then handle_tx_ping c args
      else if bytes_eq cmd (codes "rxprio")
      then (c, done)
      else if bytes_eq cmd (codes "rxrst")
      then lifted (rx_rst c i)
      else if bytes_eq cmd (codes "rxping")
      then (c, done)
      else if bytes_eq cmd (codes "txgoaway")
      then handle_tx_go_away c args
      else if bytes_eq cmd (codes "rxgoaway")
      then (c, done)
      else if bytes_eq cmd (codes "txwinup")
      then handle_tx_winup c i args
      else if bytes_eq cmd (codes "rxwinup")
      then (c, done)
      else if bytes_eq cmd (codes "expect")
      then handle_expect c i args
      else if bytes_eq cmd (codes "sendhex")
      then handle_send_hex c args
      else if bytes_eq cmd (codes "delay")
      then handle_delay c args
      else (c, failed unknown_command)

  abbrev pub stream_tokens : Conn → ℕ → List Bytes → Handled
  stream_tokens c i [] = (c, done)
  stream_tokens c i (cmd ∷ args) = stream_command c i cmd args

  unfoldable pub process_stream_command : Conn → ℕ → Bytes → Handled
  unfolding tokenize_command
  process_stream_command c i line = stream_tokens c i (tokenize_command line)

  -- One line of a stream's specification.
  unfoldable pub stream_line : Conn → ℕ → Bytes → Handled
  stream_line c i line =
      let text = trim_space line in
      if is_skipped text then (c, done) else process_stream_command c i text

  -- `runStream`.
  unfoldable pub run_lines : Conn → ℕ → List Bytes → Conn × Progress
  run_lines c i [] = (c, (done, []))
  run_lines c i (l ∷ ls) =
      let (c', answer) = stream_line c i l in
      elim answer [
        | done ↦ run_lines c' i ls
        | blocked ↦ (c', (blocked, l ∷ ls))
        | failed e ↦ (c', (failed (stream_failed e), ls))
      ]

  unfoldable pub run_stream : Conn → ℕ → Bytes → Conn × Progress
  unfolding run_lines split
  run_stream c i spec = run_lines c i (split b'\n' spec)
