-- ===== src/Http2/Handler/Tasks.antt =====
-- The streams that a specification of pkg/http2/handler.go starts and waits for, and the commands on the
-- connection. A `StreamContext` is a task; the map holds its place among all the tasks, which stands
-- for the pointer.
use gtest.Common.{
  ℕ, ◌||◌, List, [], ◌∷◌, ◌++◌, Option, none, some, if◌then◌else◌, Bytes, codes, bytes_eq, length,
  get_elem?, set, Result, ok, err,
}
use gtest.Common.Maps.{lookup, insert, delete, number_key}
use gtest.Common.Numerals.{parse_uint}
use gtest.Common.Texts.{trim_space}
use gtest.Http2.Conn.{Conn, ConnError}
use gtest.Http2.Commands.{Outcome, done, blocked, failed}
use gtest.Http2.Commands.Frames.{tx_pri, rx_pri}
use gtest.Http2.Handler.{
  HandlerError, bad_number, missing_argument, unknown_command, no_spec, not_started, conn_failed,
  stream_failed, tokenize_command,
}
use gtest.Http2.Handler.Actions.{Handled}
use gtest.Http2.Handler.FrameActions.{handle_tx_settings, handle_send_hex, join}
use gtest.Http2.Handler.Scripts.{
  Durations, is_skipped, split, replace_from, handle_delay, stream_line, run_stream,
}

-- `script` is what the goroutine has still to run; it is done when that is empty.
pub record StreamContext : Type 0 where
  pub stream_id : ℕ
  pub script : List Bytes
  pub error : Option HandlerError

-- `incoming` is what the connection has yet to deliver to `rxpri`.
pub record Handler : Type 0 where
  pub conn : Conn
  pub incoming : Bytes
  pub active_streams : List (ℕ × ℕ)
  pub tasks : List StreamContext

unfoldable pub new_handler : Conn → Bytes → Handler
new_handler c incoming = record { conn = c; incoming = incoming; active_streams = []; tasks = [] }

-- Where a command on the connection stops: at its end, at an error, in the lines of a stream that it
-- runs itself, or at a stream that it waits for.
pub data Progress : Type 0 where
  finished : Progress
  broken : HandlerError → Progress
  inside : ℕ → List Bytes → Progress
  waiting : ℕ → Progress

unfoldable pub start_stream : Handler → ℕ → Bytes → Handler
unfolding split
start_stream h i spec = record h {
  active_streams = insert i (length h.tasks) h.active_streams;
  tasks = h.tasks ++ (record { stream_id = i; script = split b'\n' spec; error = none } ∷ []);
}

-- The map's context, once the goroutine is done, is deleted; its error is the answer.
abbrev pub ended_with : ℕ → Option HandlerError → Progress
ended_with i none = finished
ended_with i (some e) = broken (stream_failed e)

abbrev pub wait_for_script : Handler → ℕ → List Bytes → Option HandlerError → Handler × Progress
wait_for_script h i [] error =
    (record h { active_streams = delete i h.active_streams }, ended_with i error)
wait_for_script h i (_ ∷ _) error = (h, waiting i)

abbrev pub wait_for_task : Handler → ℕ → Option StreamContext → Handler × Progress
wait_for_task h i none = (h, broken not_started)
wait_for_task h i (some t) = wait_for_script h i t.script t.error

-- The task of a stream in the map.
abbrev pub task_at : List StreamContext → Option ℕ → Option StreamContext
task_at ts none = none
task_at ts (some p) = get_elem? ts p

unfoldable pub wait_for_stream : Handler → ℕ → Handler × Progress
wait_for_stream h i = wait_for_task h i (task_at h.tasks (lookup i h.active_streams))

-- The loop over the arguments of `stream`: the last mode, and the parts of the specification.
pub data RunMode : Type 0 where
  unset run start wait : RunMode

unfoldable pub stream_args : RunMode → List Bytes → List Bytes → RunMode × List Bytes
stream_args mode parts [] = (mode, parts)
stream_args mode parts (a ∷ args) =
    let is_mode =
      bytes_eq a (codes "-run") || bytes_eq a (codes "-start") || bytes_eq a (codes "-wait") in
    stream_args
      (if bytes_eq a (codes "-run")
        then run
        else if bytes_eq a (codes "-start")
        then start
        else if bytes_eq a (codes "-wait")
        then wait
        else mode)
      (if is_mode then parts else parts ++ (a ∷ [])) args

abbrev pub spec_of : List Bytes → Bytes
spec_of parts = replace_from 0 (codes "|||") (codes "\n") (join (codes " ") parts)

module _ (lib : Durations) where
  abbrev pub stopped_at : ℕ → Outcome HandlerError × List Bytes → Progress
  stopped_at i (done, ls) = finished
  stopped_at i (blocked, ls) = inside i ls
  stopped_at i (failed e, ls) = broken e

  abbrev pub run_now : Handler → ℕ → Bytes → Handler × Progress
  run_now h i spec =
      let (c, progress) = run_stream lib h.conn i spec in
      (record h { conn = c }, stopped_at i progress)

  abbrev pub run_in_mode : Handler → ℕ → RunMode → Bytes → Handler × Progress
  run_in_mode h i wait spec = wait_for_stream h i
  run_in_mode h i start [] = (h, broken no_spec)
  run_in_mode h i start (c ∷ spec) = (start_stream h i (c ∷ spec), finished)
  run_in_mode h i _ [] = (h, broken no_spec)
  run_in_mode h i _ (c ∷ spec) = run_now h i (c ∷ spec)

  abbrev pub stream_by : Handler → Option ℕ → RunMode × List Bytes → Handler × Progress
  stream_by h none _ = (h, broken bad_number)
  stream_by h (some i) (mode, parts) = run_in_mode h i mode (spec_of parts)

  unfoldable pub handle_stream : Handler → List Bytes → Handler × Progress
  unfolding parse_uint stream_args replace_from join
  handle_stream h (a ∷ b ∷ args) = stream_by h (parse_uint 32 a) (stream_args unset [] (b ∷ args))
  handle_stream h _ = (h, broken missing_argument)

  -- None of the commands that this is for blocks.
  abbrev pub on_conn : Handler → Handled → Handler × Progress
  on_conn h (c, done) = (record h { conn = c }, finished)
  on_conn h (c, blocked) = (record h { conn = c }, finished)
  on_conn h (c, failed e) = (record h { conn = c }, broken e)

  abbrev pub after_preface : Handler → Result ConnError Bytes → Handler × Progress
  after_preface h (err e) = (h, broken (conn_failed e))
  after_preface h (ok rest) = (record h { incoming = rest }, finished)

  -- The switch of `ProcessCommand`.
  abbrev pub conn_command : Handler → Bytes → List Bytes → Handler × Progress
  conn_command h cmd args =
      if bytes_eq cmd (codes "stream")
      then handle_stream h args
      else if bytes_eq cmd (codes "txpri")
      then (record h { conn = tx_pri h.conn }, finished)
      else if bytes_eq cmd (codes "rxpri")
      then after_preface h (rx_pri h.incoming)
      else if bytes_eq cmd (codes "txsettings")
      then on_conn h (handle_tx_settings h.conn args)
      else if bytes_eq cmd (codes "rxsettings")
      then (h, finished)
      else if bytes_eq cmd (codes "sendhex")
      then on_conn h (handle_send_hex h.conn args)
      else if bytes_eq cmd (codes "delay")
      then on_conn h (handle_delay lib h.conn args)
      else (h, broken unknown_command)

  abbrev pub conn_tokens : Handler → List Bytes → Handler × Progress
  conn_tokens h [] = (h, finished)
  conn_tokens h (cmd ∷ args) = conn_command h cmd args

  unfoldable pub process_command : Handler → Bytes → Handler × Progress
  unfolding tokenize_command
  process_command h line = conn_tokens h (tokenize_command line)

  abbrev pub conn_line : Handler → Bytes → Handler × Progress
  conn_line h line = if is_skipped line then (h, finished) else process_command h line

  -- The loop of `ProcessSpec`, and the lines left where it stops.
  unfoldable pub process_lines : Handler → List Bytes → Handler × Progress × List Bytes
  process_lines h [] = (h, finished, [])
  process_lines h (l ∷ ls) =
      let (h', progress) = conn_line h (trim_space l) in
      elim progress [
        | finished ↦ process_lines h' ls
        | broken e ↦ (h', broken e, ls)
        | inside i rest ↦ (h', inside i rest, ls)
        | waiting i ↦ (h', waiting i, ls)
      ]

  unfoldable pub process_spec : Handler → Bytes → Handler × Progress × List Bytes
  unfolding process_lines split
  process_spec h spec = process_lines h (split b'\n' spec)

  -- One line of a task: the goroutine ends at its last line, and at an error, which it keeps.
  abbrev pub task_after : StreamContext → List Bytes → Outcome HandlerError → StreamContext
  task_after t ls done = record t { script = ls }
  task_after t ls blocked = t
  task_after t ls (failed e) = record t { script = []; error = some (stream_failed e) }

  abbrev pub run_script : Handler → ℕ → StreamContext → List Bytes → Handler
  run_script h p t [] = h
  run_script h p t (l ∷ ls) =
      let (c, answer) = stream_line lib h.conn t.stream_id l in
      record h { conn = c; tasks = set h.tasks p (task_after t ls answer) }

  abbrev pub run_task : Handler → ℕ → Option StreamContext → Handler
  run_task h p none = h
  run_task h p (some t) = run_script h p t t.script

  unfoldable pub step_task : Handler → ℕ → Handler
  step_task h p = run_task h p (get_elem? h.tasks p)
