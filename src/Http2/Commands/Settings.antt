-- ===== src/Http2/Commands/Settings.antt =====
-- `TxSettings` of pkg/http2/frame_commands.go and what the other side's `handleSettings` makes of it.
use gtest.Common.{
  ℕ, ◌^◌, ◌<◌, ◌≡◌, refl, subst, ◌∙◌, true, false, [], ◌∷◌, ◌++◌, Option, none, some, ◌==◌, ==_iff,
  Bytes, length, ok, arith, All, Bool-cases, inl, inr,
}
use gtest.Common.Maps.{lookup, insert, IsMap, insert-IsMap, number_key}
use gtest.Http2.Frame.{
  Frame, frame, frame_settings, flag_none, settings_payload, write_settings_frame, read_frame,
}
use gtest.Http2.Frame.Header.{read-write_frame}
use gtest.Http2.Frame.Settings.{IsSetting, length-settings_payload}
use gtest.Http2.Conn.{Conn, Settings, to_settings, settings_bytes, send_settings}
use gtest.Http2.Conn.Handlers.{process_frame}
use gtest.Http2.Conn.Receiving.{latest, process_settings}
use gtest.Http2.Commands.Frames.{put_settings, tx_settings}

pub put_settings-IsMap : (m ss : Settings) → IsMap m → IsMap (put_settings m ss)
unfolding put_settings
put_settings-IsMap m [] h = h
put_settings-IsMap m ((i, v) ∷ ss) h = put_settings-IsMap (insert i v m) ss (insert-IsMap i v m h)

abbrev pub or_else : Option ℕ → Option ℕ → Option ℕ
or_else none old = old
or_else (some v) old = some v

some-none : {v : ℕ} → some v ≡ none → ⊥
some-none e = cc

latest_absent :
    (m : Settings) (i : ℕ) (old : Option ℕ) → lookup i m ≡ none → latest i old (to_settings m) ≡ old
unfolding latest lookup
latest_absent [] i old h = refl
latest_absent ((j, v) ∷ m) i old h = elim (Bool-cases (j == i)) [
  | inl e ↦ absurd (some-none (rw e at h))
  | inr e ↦ rw (e, latest) (latest_absent m i old (rw e at h))
]

-- A map sends the value of each key.
latest-to_settings :
    (m : Settings) (i : ℕ) (old : Option ℕ)
    → IsMap m
    → latest i old (to_settings m) ≡ or_else (lookup i m) old
unfolding latest lookup
latest-to_settings [] i old h = refl
latest-to_settings ((j, v) ∷ m) i old (fresh, h) = elim (Bool-cases (j == i)) [
  | inl e ↦
      let k : j ≡ i = (==_iff j i).0 e in
      rw (e, latest) (latest_absent m i (some v) (subst (λ j. lookup j m ≡ none) k fresh))
  | inr e ↦ rw (e, latest) (latest-to_settings m i old h)
]

length-to_settings : (m : Settings) → length (to_settings m) ≡ length m
length-to_settings [] = refl
length-to_settings ((i, v) ∷ m) = omega (arith, length-to_settings m)

-- `TxSettings` without an acknowledgement, where the local settings are a map, and with the given ones
-- put in they fit their 16 and 32 bits and are fewer than 2 ^ 20: what it writes is one frame, which
-- the other side takes without error. There each setting has then the value that the sender has for it,
-- or the old one where the sender has none; and one acknowledgement is sent back.
pub process-tx_settings :
    (k c : Conn) (ss : Settings) (i : ℕ) (rest : Bytes)
    → let k' = tx_settings k false ss in
      IsMap k.local_settings
      → All IsSetting (to_settings k'.local_settings)
      → length k'.local_settings < 2 ^ 20
      → (bytes : Bytes) × (f : Frame) × (k'.written ≡ k.written ++ bytes)
        × (read_frame (bytes ++ rest) ≡ ok (f, rest))
        × ((process_frame c f).1 ≡ none)
        × (lookup i (process_frame c f).0.remote_settings
            ≡ or_else (lookup i k'.local_settings) (lookup i c.remote_settings))
        × ((process_frame c f).0.spawned ≡ c.spawned ++ (write_settings_frame 0 true [] ∷ []))
unfolding tx_settings send_settings settings_bytes write_settings_frame
process-tx_settings k c ss i rest is_map fits few =
    let m = put_settings k.local_settings ss in
    let f = frame frame_settings flag_none 0 (settings_payload (to_settings m)) in
    let (no_error, value, acknowledged, table, encoder) =
      process_settings c 0 (to_settings m) i fits in
    (
      write_settings_frame 0 false (to_settings m),
      f,
      refl,
      read-write_frame f rest
          (omega (arith, few, length-settings_payload (to_settings m), length-to_settings m)),
      no_error,
      value
          ∙ latest-to_settings m i (lookup i c.remote_settings)
              (put_settings-IsMap k.local_settings ss is_map),
      acknowledged,
    )
