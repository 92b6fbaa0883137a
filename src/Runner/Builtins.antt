-- ===== src/Runner/Builtins.antt =====
-- The commands barrier and filewrite of pkg/vtc/builtin_commands.go. What a barrier's wait does is in
-- Barrier; the file is not written here.
use gtest.Common.{
  ℕ, suc, Bool, true, false, ◌||◌, List, [], ◌∷◌, Option, none, some, ◌==◌, if◌then◌else◌, Bytes,
  codes, bytes_eq, Result, ok, err, ◌>>=◌, ℤ, pos,
}
use gtest.Common.Maps.{lookup, insert, bytes_key}
use gtest.Common.Numerals.{atoi}
use gtest.Barrier.{Barrier, new_barrier, start, set_timeout}
use gtest.Macro.{Store, expand}
use gtest.Http2.Handler.FrameActions.{join}

pub data BuiltinError : Type 0 where
  missing_argument bad_name bad_count bad_timeout bad_exit bad_pattern : BuiltinError
  unknown_option expansion_failed exec_failed wrong_exit no_match wrong_output : BuiltinError
  write_failed unknown_feature : BuiltinError

-- What a `barrier` command ends with: nothing more, `Wait` or `Sync` on the barrier.
pub data BarrierCall : Type 0 where
  returns waits syncs : BarrierCall

abbrev pub or_bad {ℓ κ} : {E : Type ℓ} {A : Type κ} → E → Option A → Result E A
or_bad e none = err e
or_bad e (some a) = ok a

abbrev begins_with : Bytes → List Bytes → Bool
begins_with name [] = false
begins_with name (a ∷ args) = bytes_eq a name

-- `Start`, whose error is that of a count below 1.
abbrev started : Barrier → ℤ → Result BuiltinError (Barrier × BarrierCall)
started b count = elim (start b count) [ ok b' ↦ ok (b', returns) | err e ↦ err bad_count ]

abbrev at_count : Barrier → List Bytes → Option ℤ → Result BuiltinError (Barrier × BarrierCall)
at_count b args none = err bad_count
at_count b args (some count) =
    started (if begins_with (codes "-cyclic") args then record b { cyclic = true } else b) count

-- A count that is there and positive, or 1.
abbrev count_or_one : Option ℤ → ℤ
count_or_one (some (pos (suc n))) = pos (suc n)
count_or_one _ = pos 1

abbrev first_count : List Bytes → ℤ
first_count [] = pos 1
first_count (a ∷ args) = count_or_one (atoi a)

-- A barrier by its name, which is made at its first use.
abbrev pub Barriers : Type 0
Barriers = List (Bytes × Barrier)

abbrev barrier_at : Bytes → Option Barrier → Barrier
barrier_at name none = new_barrier name
barrier_at name (some b) = b

abbrev begins_with_b : Bytes → Bool
begins_with_b [] = false
begins_with_b (c ∷ cs) = c == b'b'

abbrev put_barrier :
    Barriers
    → Bytes
    → Result BuiltinError (Barrier × BarrierCall)
    → Result BuiltinError (Barriers × BarrierCall)
put_barrier bs name (err e) = err e
put_barrier bs name (ok (b, call)) = ok (insert name b bs, call)

-- The loop over the options; `durations` is `time.ParseDuration` of a number of seconds.
module _ (durations : Bytes → Option ℕ) where
  unfoldable pub barrier_options :
      Barrier → List Bytes → Result BuiltinError (Barrier × BarrierCall)
  barrier_options b [] = ok (b, returns)
  barrier_options b (a ∷ []) =
      if bytes_eq a (codes "cond") || bytes_eq a (codes "sock") || bytes_eq a (codes "-timeout")
      then err missing_argument
      else if bytes_eq a (codes "-start")
      then started b (pos 1)
      else if bytes_eq a (codes "-wait")
      then ok (b, waits)
      else if bytes_eq a (codes "sync") || bytes_eq a (codes "-sync")
      then ok (b, syncs)
      else if bytes_eq a (codes "-cyclic")
      then ok (record b { cyclic = true }, returns)
      else err unknown_option
  barrier_options b (a ∷ v ∷ args) =
      let cyclic = barrier_options (record b { cyclic = true }) (v ∷ args) in
      let timed =
        or_bad bad_timeout (durations v) >>= λ d. barrier_options (set_timeout b d) args in
      if bytes_eq a (codes "cond") || bytes_eq a (codes "sock")
      then at_count b args (atoi v)
      else if bytes_eq a (codes "-start")
      then started b (first_count (v ∷ args))
      else if bytes_eq a (codes "-wait")
      then ok (b, waits)
      else if bytes_eq a (codes "sync") || bytes_eq a (codes "-sync")
      then ok (b, syncs)
      else if bytes_eq a (codes "-timeout")
      then timed
      else if bytes_eq a (codes "-cyclic")
      then cyclic
      else err unknown_option

  unfoldable pub cmd_barrier : Barriers → List Bytes → Result BuiltinError (Barriers × BarrierCall)
  unfolding barrier_options
  cmd_barrier bs [] = err missing_argument
  cmd_barrier bs (name ∷ args) =
      if begins_with_b name
      then put_barrier bs name (barrier_options (barrier_at name (lookup name bs)) args)
      else err bad_name

-- The arguments of `filewrite`: the name, the content and whether it is appended. The `break` leaves
-- the switch, not the loop.
pub record FileWrite : Type 0 where
  pub filename : Bytes
  pub content : Bytes
  pub append_mode : Bool

abbrev pub take_argument : FileWrite → Bytes → List Bytes → FileWrite
take_argument w a args =
    if bytes_eq w.filename []
    then record w { filename = a }
    else record w { content = join (codes " ") (a ∷ args) }

unfoldable pub filewrite_args : FileWrite → List Bytes → FileWrite
unfolding join
filewrite_args w [] = w
filewrite_args w (a ∷ args) =
    filewrite_args
      (if bytes_eq a (codes "-append")
        then record w { append_mode = true }
        else take_argument w a args)
      args

abbrev pub no_file_write : FileWrite
no_file_write = record { filename = []; content = []; append_mode = false }

-- The file written: its path, the text, and whether it is appended. `in_dir` is `filepath.Join` of the
-- temporary directory where the name is not absolute.
module _ (in_dir : Bytes → Bytes) where
  abbrev expanded : Store → FileWrite → Result BuiltinError FileWrite
  expanded ms w = elim (expand ms w.filename) [
    | err e ↦ err expansion_failed
    | ok name ↦ elim (expand ms w.content) [
      | err e ↦ err expansion_failed
      | ok content ↦ ok (record w { filename = in_dir name; content = content })
    ]
  ]

  unfoldable pub cmd_filewrite : Store → List Bytes → Result BuiltinError FileWrite
  unfolding filewrite_args
  cmd_filewrite ms [] = err missing_argument
  cmd_filewrite ms (a ∷ args) = expanded ms (filewrite_args no_file_write (a ∷ args))
