-- ===== src/Tests/Handler.antt =====
-- pkg/http2/handler.go at concrete scripts.
use gtest.Common.{
  ℕ, ◌^◌, ◌<◌, ◌≡◌, ◌≢◌, refl, true, false, List, [], ◌∷◌, ◌++◌, none, some, Bytes, bytes_eq, codes,
  length, get_elem?, ok, arith,
}
use gtest.Common.Maps
use gtest.Common.Maps.{number_key}
use gtest.Common.Numerals.{parse_digits, scan, parse_uint}
use gtest.Common.Texts.{trim_space, trim_front}
use gtest.Http2.Frame.{Frame, frame_ping, write_data_frame, read_frame}
use gtest.Http2.Stream.{Stream, new_stream, get, next_state}
use gtest.Http2.Conn.{Conn, new_conn}
use gtest.Http2.Conn.Handlers.{process_frame}
use gtest.Http2.Commands.{done, blocked}
use gtest.Http2.Commands.Frames.{put_settings}
use gtest.Http2.Commands.Settings.{or_else}
use gtest.Http2.Handler.{not_started}
use gtest.Http2.Handler.Options.{act, read_from, read_args, ignored}
use gtest.Http2.Handler.FrameActions.{settings_actions, handle_tx_settings, handle_tx_ping}
use gtest.Http2.Handler.Scripts.{Durations, stream_line, run_lines}
use gtest.Http2.Handler.Tasks.{
  Handler, StreamContext, Progress, finished, broken, waiting, step_task, new_handler, start_stream,
  wait_for_stream,
}
use gtest.Http2.Handler.Linked.{
  IsLinked, Event, starts, waits, steps, after_all, after_all-IsLinked,
}
use gtest.Http2.Handler.Waiting.{
  IsTakenOut, IsAnswer, step_tasks, wait_for_stream_once, wait_for_stream_started,
}
use gtest.Http2.Handler.Kept.{AreSettings, handle_tx_ping-taken, handle_tx_settings-taken}

abbrev lib : Durations
lib = record { is_duration = λ s. true; is_float = λ s. false }

abbrev conn : Conn
conn = new_conn false

-- A connection with a stream that is there and has no signal.
abbrev quiet : Stream
quiet = new_stream 1 []

abbrev quiet_conn : Conn
quiet_conn = record conn { streams = (1, quiet) ∷ [] }

Goes : List Bytes → Bytes → Type 0
Goes ls payload =
    (f : Frame) × (c' : Conn) × (run_lines lib quiet_conn 1 (codes "rxdata" ∷ ls)
      ≡ (quiet_conn, (blocked, codes "rxdata" ∷ ls)))
    × (read_frame (write_data_frame 1 payload true ++ []) ≡ ok (f, []))
    × ((process_frame quiet_conn f).1 ≡ none)
    × (run_lines lib (process_frame quiet_conn f).0 1 (codes "rxdata" ∷ ls) ≡ run_lines lib c' 1 ls)
    × (get c'.streams 1
        ≡ some (record quiet {
          req_body = quiet.req_body ++ payload;
          state = next_state quiet.state true false;
          signalled = false;
        }))

abbrev events : List Event
events = starts 1 (codes "rxreq") ∷ steps 0 ∷ waits 1 ∷ starts 1 [] ∷ []

after_all-IsLinked_example : IsLinked (after_all lib (new_handler conn []) events)
after_all-IsLinked_example = after_all-IsLinked lib conn [] events

-- A handler whose one task is done.
abbrev done_events : List Event
done_events = starts 1 [] ∷ steps 0 ∷ []

abbrev ended : Handler
ended = after_all lib (new_handler conn []) done_events

ended_finished : (wait_for_stream ended 1).1 ≡ finished
unfolding wait_for_stream new_handler start_stream step_task stream_line Maps.lookup Maps.insert
    trim_space trim_front bytes_eq
ended_finished = refl

not_waiting : {p : Progress} → p ≡ finished → p ≢ waiting 1
not_waiting e k = cc

wait_for_stream_once_example :
    IsTakenOut 1 ended (wait_for_stream ended 1).0
    × (wait_for_stream (wait_for_stream ended 1).0 1
        ≡ ((wait_for_stream ended 1).0, broken not_started))
wait_for_stream_once_example =
    wait_for_stream_once ended 1 (after_all-IsLinked lib conn [] done_events)
      (not_waiting ended_finished)

-- A stream whose first task waits, and which is started again with nothing to do.
abbrev stuck_events : List Event
stuck_events = starts 1 (codes "rxreq") ∷ steps 0 ∷ []

abbrev stuck : Handler
stuck = after_all lib (new_handler conn []) stuck_events

one_task : length stuck.tasks ≡ 1
unfolding new_handler start_stream step_task stream_line Maps.lookup Maps.insert trim_space
    trim_front bytes_eq
one_task = refl

Restarts : List ℕ → List ℕ → Type 0
Restarts ps qs =
    let h' = step_tasks lib (start_stream stuck 1 []) ps in
    let h'' = step_tasks lib (start_stream stuck 1 []) qs in
    (t : StreamContext) × (wait_for_stream h' 1 ≡ (h', waiting 1))
    × (get_elem? h''.tasks (length stuck.tasks) ≡ some t)
    × IsAnswer 1 t h'' (wait_for_stream h'' 1)

wait_for_stream_started_example : Restarts (0 ∷ []) (0 ∷ 1 ∷ [])
unfolding Restarts
wait_for_stream_started_example =
    wait_for_stream_started lib stuck 1 [] (0 ∷ []) (0 ∷ 1 ∷ [])
      ((λ e. omega (arith, e, one_task)), tt)

Pings : List Bytes → Type 0
Pings args =
    (bytes : Bytes) × (f : Frame) × ((handle_tx_ping conn args).0.written ≡ conn.written ++ bytes)
    × (read_frame (bytes ++ []) ≡ ok (f, []))
    × (f.header.kind ≡ frame_ping)
    × (length f.payload ≡ 8)
    × ((process_frame conn f).1 ≡ none)

abbrev ping_args : List Bytes
ping_args = codes "-data" ∷ codes "abc" ∷ []

ping_done : (handle_tx_ping conn ping_args).1 ≡ done
unfolding handle_tx_ping read_from act Maps.lookup bytes_eq
ping_done = refl

handle_tx_ping-taken_example : Pings ping_args
unfolding Pings
handle_tx_ping-taken_example = handle_tx_ping-taken conn conn ping_args [] ping_done

abbrev settings_args : List Bytes
settings_args = codes "-hdrtbl" ∷ codes "256" ∷ []

Sets : ℕ → Type 0
Sets i =
    let k' = (handle_tx_settings conn settings_args).0 in
    (bytes : Bytes) × (f : Frame) × ((handle_tx_settings conn settings_args).1 ≡ done)
    × (k'.written ≡ conn.written ++ bytes)
    × (read_frame (bytes ++ []) ≡ ok (f, []))
    × ((process_frame conn f).1 ≡ none)
    × (Maps.lookup i (process_frame conn f).0.remote_settings
        ≡ or_else (Maps.lookup i k'.local_settings) (Maps.lookup i conn.remote_settings))

settings_read :
    read_args settings_actions ignored (false, []) settings_args ≡ ok (false, (1, 256) ∷ [])
unfolding read_args read_from act Maps.lookup Maps.insert bytes_eq parse_uint parse_digits scan
settings_read = refl

local_settings : AreSettings conn.local_settings
unfolding new_conn Maps.lookup
local_settings = (
  (refl, (refl, (refl, (refl, (refl, tt))))),
  (
    record { id_fits = omega arith; value_fits = omega arith },
    (
      record { id_fits = omega arith; value_fits = omega arith },
      (
        record { id_fits = omega arith; value_fits = omega arith },
        (
          record { id_fits = omega arith; value_fits = omega arith },
          (record { id_fits = omega arith; value_fits = omega arith }, tt),
        ),
      ),
    ),
  ),
)

few_settings : length (put_settings conn.local_settings ((1, 256) ∷ [])) < 2 ^ 20
unfolding new_conn put_settings Maps.insert
few_settings = omega arith

handle_tx_settings-taken_example : Sets 1
unfolding Sets
handle_tx_settings-taken_example =
    handle_tx_settings-taken conn conn settings_args ((1, 256) ∷ []) 1 [] local_settings
      settings_read few_settings
