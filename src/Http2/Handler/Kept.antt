-- ===== src/Http2/Handler/Kept.antt =====
-- What holds of every frame that `txping` and `txsettings` of pkg/http2/handler.go send, whatever their
-- arguments are.
use gtest.Common.{
  ℕ, ◌^◌, ◌<◌, ◌≡◌, refl, subst, Bool, true, false, List, [], ◌∷◌, ◌++◌, Option, none, some, ◌==◌,
  ltb, if◌then◌else◌, Bytes, length, take, drop, length-append, length-take_le, length-drop, Result,
  ok, err, ◌>>=◌, arith, All, Bool-cases, inl, inr,
}
use gtest.Common.Maps.{lookup, insert, IsMap, insert-IsMap, number_key}
use gtest.Common.Numerals.{parse_uint, parse_digits, in_bits}
use gtest.Http2.Frame.{
  Frame, frame, frame_ping, flag_ack, flag_none, has, write_ping_frame, read_frame,
}
use gtest.Http2.Frame.Header.{read-write_frame}
use gtest.Http2.Frame.Settings.{IsSetting}
use gtest.Http2.Conn.{Conn, Settings, to_settings, send_settings}
use gtest.Http2.Conn.Handlers.{process_frame, handle_ping}
use gtest.Http2.Commands.{done}
use gtest.Http2.Commands.Frames.{tx_ping, tx_settings, put_settings}
use gtest.Http2.Commands.Settings.{or_else, process-tx_settings}
use gtest.Http2.Handler.{HandlerError}
use gtest.Http2.Handler.Options.{read_args, ignored, or_number}
use gtest.Http2.Handler.Actions.{Handled, with_options}
use gtest.Http2.Handler.FrameActions.{
  copied, ping_actions, handle_tx_ping, parse_bool, SettingsOptions, settings_actions,
  handle_tx_settings,
}
use gtest.Http2.Handler.Reading.{Good, read_args-Good}

-- A command that was done has read its options.
record IsRead {O : Type 0} (P : O → Type 0) (r : Result HandlerError O) : Type 0 where
  o : O
  result : r ≡ ok o
  holds : P o

done-IsRead :
    {O : Type 0} (P : O → Type 0) (c : Conn) (r : Result HandlerError O) (f : O → Handled)
    → Good P r
    → (with_options c r f).1 ≡ done
    → IsRead P r
done-IsRead P c (ok o) f h e = record { o = o; result = refl; holds = h }
done-IsRead P c (err x) f h e = absurd cc

length-copied : (array v : Bytes) → length array ≡ 8 → length (copied array v) ≡ 8
length-copied array v h = omega (
  arith,
  length-append (take 8 v) (drop (length (take 8 v)) array),
  length-take_le 8 v,
  length-drop (length (take 8 v)) array,
  h,
)

abbrev Eight : Bytes × Bool → Type 0
Eight o = length o.0 ≡ 8

zeros : Bytes
zeros = 0 ∷ 0 ∷ 0 ∷ 0 ∷ 0 ∷ 0 ∷ 0 ∷ 0 ∷ []

ping_args-Eight :
    (args : List Bytes) → Good Eight (read_args ping_actions ignored (zeros, false) args)
unfolding zeros
ping_args-Eight args =
    read_args-Good Eight ping_actions ignored (zeros, false) args
      ((λ o a h. length-copied o.0 a h), ((λ o h. h), tt)) (λ o a h. h) refl

ping_taken :
    (d : Conn) (ack : Bool) (content : Bytes)
    → length content ≡ 8
    → (process_frame d (frame frame_ping (if ack then flag_ack else flag_none) 0 content)).1 ≡ none
unfolding process_frame handle_ping has
ping_taken d true content h = refl
ping_taken d false content h = rw h

-- Whatever the arguments of `txping` are, if it is done it has written one PING frame of eight bytes,
-- which the other side reads and takes without error.
pub handle_tx_ping-taken :
    (c d : Conn) (args : List Bytes) (rest : Bytes)
    → (handle_tx_ping c args).1 ≡ done
    → (bytes : Bytes) × (f : Frame) × ((handle_tx_ping c args).0.written ≡ c.written ++ bytes)
      × (read_frame (bytes ++ rest) ≡ ok (f, rest))
      × (f.header.kind ≡ frame_ping)
      × (length f.payload ≡ 8)
      × ((process_frame d f).1 ≡ none)
unfolding handle_tx_ping zeros tx_ping write_ping_frame
handle_tx_ping-taken c d args rest finished =
    let r = read_args ping_actions ignored (zeros, false) args in
    let p =
      done-IsRead Eight c r (λ o. (tx_ping c o.1 o.0, done)) (ping_args-Eight args) finished in
    let f = frame frame_ping (if p.o.1 then flag_ack else flag_none) 0 p.o.0 in
    (
      write_ping_frame p.o.1 p.o.0,
      f,
      rw p.result refl,
      read-write_frame f rest (omega (arith, p.holds)),
      refl,
      p.holds,
      ping_taken d p.o.1 p.o.0 p.holds,
    )

-- The numbers of settings fit, and none is there twice.
abbrev pub AreSettings : Settings → Type 0
AreSettings m = IsMap m × All IsSetting (to_settings m)

insert-fits :
    (i v : ℕ) (m : Settings)
    → i < 2 ^ 16
    → v < 2 ^ 32
    → All IsSetting (to_settings m)
    → All IsSetting (to_settings (insert i v m))
unfolding insert
insert-fits i v [] p q h = (record { id_fits = p; value_fits = q }, tt)
insert-fits i v ((j, w) ∷ m) p q (k, h) = elim (Bool-cases (j == i)) [
  | inl e ↦ rw e (record { id_fits = p; value_fits = q }, h)
  | inr e ↦ rw e (k, insert-fits i v m p q h)
]

insert-AreSettings :
    (i v : ℕ) (m : Settings) → i < 2 ^ 16 → v < 2 ^ 32 → AreSettings m → AreSettings (insert i v m)
insert-AreSettings i v m p q (is_map, fits) =
    (insert-IsMap i v m is_map, insert-fits i v m p q fits)

put_settings-AreSettings :
    (m ss : Settings) → AreSettings m → AreSettings ss → AreSettings (put_settings m ss)
unfolding put_settings
put_settings-AreSettings m [] h k = h
put_settings-AreSettings m ((i, v) ∷ ss) h ((fresh, is_map), (fits, all)) =
    put_settings-AreSettings (insert i v m) ss
      (insert-AreSettings i v m fits.id_fits fits.value_fits h) (is_map, all)

abbrev Fit : SettingsOptions → Type 0
Fit o = AreSettings o.1

in_bits-Good :
    (i w : ℕ) (o : SettingsOptions) (x : Option ℕ)
    → i < 2 ^ 16
    → w ≡ 32
    → Fit o
    → Good Fit (or_number (in_bits w x) >>= λ n. ok (o.0, insert i n o.1))
in_bits-Good i w o none p q h = tt
in_bits-Good i w o (some n) p q h = elim (Bool-cases (ltb n (2 ^ w))) [
  | inl e ↦ rw e (insert-AreSettings i n o.1 p (fits n w q e) h)
  | inr e ↦ rw e tt
]
  where
    fits : (n w : ℕ) → w ≡ 32 → ltb n (2 ^ w) ≡ true → n < 2 ^ 32
    fits n w q e = let k : ltb n (2 ^ 32) ≡ true = rw q at e in ground (arith, k)

number-Good :
    (i : ℕ) (o : SettingsOptions) (a : Bytes)
    → i < 2 ^ 16
    → Fit o
    → Good Fit (or_number (parse_uint 32 a) >>= λ n. ok (o.0, insert i n o.1))
unfolding parse_uint
number-Good i o a p h = in_bits-Good i 32 o (parse_digits 10 a) p refl h

push-Good :
    (o : SettingsOptions) (r : Result HandlerError Bool)
    → Fit o
    → Good Fit (r >>= λ b. ok (o.0, insert 2 (if b then 1 else 0) o.1))
push-Good o (ok true) h = insert-AreSettings 2 1 o.1 (omega arith) (omega arith) h
push-Good o (ok false) h = insert-AreSettings 2 0 o.1 (omega arith) (omega arith) h
push-Good o (err e) h = tt

settings_args-Fit :
    (args : List Bytes) → Good Fit (read_args settings_actions ignored (false, []) args)
settings_args-Fit args =
    read_args-Good Fit settings_actions ignored (false, []) args
      (
        (λ o h. h),
        (
          (λ o a h. push-Good o (parse_bool a) h),
          (
            (λ o a h. number-Good 1 o a (omega arith) h),
            (
              (λ o a h. number-Good 3 o a (omega arith) h),
              (
                (λ o a h. number-Good 4 o a (omega arith) h),
                (
                  (λ o a h. number-Good 5 o a (omega arith) h),
                  ((λ o a h. number-Good 6 o a (omega arith) h), tt),
                ),
              ),
            ),
          ),
        ),
      )
      (λ o a h. h) (tt, tt)

same_options :
    {a b : SettingsOptions} → ◌≡◌ {A = Result HandlerError SettingsOptions} (ok a) (ok b) → a ≡ b
same_options e = cc

read_settings :
    (r : Result HandlerError SettingsOptions) (o : SettingsOptions) → Good Fit r → r ≡ ok o → Fit o
read_settings (ok o') o h e = subst Fit (same_options e) h
read_settings (err x) o h e = absurd cc

-- Whatever the arguments of `txsettings` are, without `-ack` among them: if they are read, the local
-- settings are a map of numbers that fit, and they and the new ones are fewer than 2 ^ 20, then the one
-- frame that is written is taken by the other side without error, and there each setting has the value
-- that the sender has for it, or the old one where the sender has none.
pub handle_tx_settings-taken :
    (k c : Conn) (args : List Bytes) (ss : Settings) (i : ℕ) (rest : Bytes)
    → AreSettings k.local_settings
    → read_args settings_actions ignored (false, []) args ≡ ok (false, ss)
    → length (put_settings k.local_settings ss) < 2 ^ 20
    → let k' = (handle_tx_settings k args).0 in
      (bytes : Bytes) × (f : Frame) × ((handle_tx_settings k args).1 ≡ done)
      × (k'.written ≡ k.written ++ bytes)
      × (read_frame (bytes ++ rest) ≡ ok (f, rest))
      × ((process_frame c f).1 ≡ none)
      × (lookup i (process_frame c f).0.remote_settings
          ≡ or_else (lookup i k'.local_settings) (lookup i c.remote_settings))
unfolding handle_tx_settings tx_settings send_settings
handle_tx_settings-taken k c args ss i rest (is_map, fits) reads few =
    let new =
      read_settings (read_args settings_actions ignored (false, []) args) (false, ss)
        (settings_args-Fit args) reads in
    let (is_map', fits') = put_settings-AreSettings k.local_settings ss (is_map, fits) new in
    let (bytes, f, written, read, no_error, value, acknowledged) =
      process-tx_settings k c ss i rest is_map fits' few in
    (bytes, f, rw reads refl, rw reads written, read, no_error, rw reads value)
