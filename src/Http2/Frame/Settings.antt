-- ===== src/Http2/Frame/Settings.antt =====
-- SETTINGS payloads of pkg/http2/frame.go, written and parsed.
use gtest.Common.{
  ℕ, zero, suc, ◌*◌, ◌/◌, ◌%◌, ◌^◌, ◌<◌, ◌≡◌, refl, Bool, true, false, List, [], ◌∷◌, ◌++◌, ◌==◌,
  if◌then◌else◌, Bytes, length, ok, err, arith, All, IsByte, ◌⊎◌, inl, inr, ◌≢◌, Bool-cases,
}
use gtest.Http2.Frame.{
  Frame, bad_settings, Setting, frame, frame_settings, flag_ack, flag_none, has, settings_payload,
  settings_loop, parse_settings_frame, write_settings_frame, read_frame,
}
use gtest.Http2.Frame.Header.{uint16-put, uint32-put, put-uint16, put-uint32, read-write_frame}

-- A uint16 and a uint32.
pub record IsSetting (s : Setting) : Type 0 where
  pub id_fits : s.id < 2 ^ 16
  pub value_fits : s.value < 2 ^ 32

ack_flag : (ack : Bool) → has (if ack then flag_ack else flag_none) flag_ack ≡ ack
unfolding has
ack_flag true = refl
ack_flag false = refl

pub length-settings_payload : (ss : List Setting) → length (settings_payload ss) ≡ 6 * length ss
unfolding settings_payload
length-settings_payload [] = refl
length-settings_payload (s ∷ ss) = omega (arith, length-settings_payload ss)

settings_loop-payload :
    (ss : List Setting) → All IsSetting ss → settings_loop (settings_payload ss) ≡ ss
unfolding settings_payload settings_loop
settings_loop-payload [] h = refl
settings_loop-payload (s ∷ ss) (h, hs) =
    rw (uint16-put s.id h.id_fits, uint32-put s.value h.value_fits, settings_loop-payload ss hs)

pub parse-settings_payload :
    (ss : List Setting) → All IsSetting ss → parse_settings_frame (settings_payload ss) ≡ ok ss
unfolding parse_settings_frame
parse-settings_payload ss h =
    let whole : (length (settings_payload ss) % 6 == 0) ≡ true =
      ground (arith, length-settings_payload ss) in
    rw (whole, settings_loop-payload ss h)

payload-settings_loop :
    (n : ℕ) (p : Bytes) → length p ≡ 6 * n → All IsByte p → settings_payload (settings_loop p) ≡ p
unfolding settings_payload settings_loop
payload-settings_loop n [] e h = refl
payload-settings_loop zero (a ∷ p) e h = absurd (omega arith)
payload-settings_loop (suc n) (i0 ∷ i1 ∷ v0 ∷ v1 ∷ v2 ∷ v3 ∷ rest) e
      (a, (b, (c, (d, (f, (g, h)))))) =
    cc (
      put-uint16 i0 i1 a b,
      put-uint32 v0 v1 v2 v3 c d f g,
      payload-settings_loop n rest (omega arith) h,
    )
payload-settings_loop (suc n) _ e h = absurd (omega arith)

-- On a payload of bytes, either `ParseSettingsFrame` answers entries whose encoding is the
-- payload, or it refuses and the length is no multiple of 6.
pub parse_settings_frame_cases :
    (p : Bytes)
    → All IsByte p
    → ((ss : List Setting) × (parse_settings_frame p ≡ ok ss) × (settings_payload ss ≡ p))
      ⊎ ((parse_settings_frame p ≡ err bad_settings) × (length p % 6 ≢ 0))
unfolding parse_settings_frame
parse_settings_frame_cases p h = elim (Bool-cases (length p % 6 == 0)) [
  | inl e ↦ inl (settings_loop p, rw e, payload-settings_loop (length p / 6) p (ground arith) h)
  | inr e ↦ inr (rw e, ground arith)
]

-- A SETTINGS frame of entries that fit their 16 and 32 bits, with a payload below 2 ^ 24 bytes, is
-- read back as one, with its acknowledgement flag and its entries in order, and with the low 31
-- bits of its stream identifier.
pub read-write_settings_frame :
    (stream_id : ℕ) (ack : Bool) (ss : List Setting) (rest : Bytes)
    → All IsSetting ss
    → 6 * length ss < 2 ^ 24
    → (f : Frame) × (read_frame (write_settings_frame stream_id ack ss ++ rest) ≡ ok (f, rest))
      × (f.header.kind ≡ frame_settings)
      × (has f.header.flags flag_ack ≡ ack)
      × (f.header.stream_id ≡ stream_id % 2 ^ 31)
      × (parse_settings_frame f.payload ≡ ok ss)
unfolding write_settings_frame
read-write_settings_frame stream_id ack ss rest h fits = (
  _,
  read-write_frame
      (frame frame_settings (if ack then flag_ack else flag_none) stream_id (settings_payload ss))
      rest (omega (arith, length-settings_payload ss)),
  refl,
  ack_flag ack,
  refl,
  parse-settings_payload ss h,
)
