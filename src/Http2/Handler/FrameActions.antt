-- ===== src/Http2/Handler/FrameActions.antt =====
-- The commands of pkg/http2/handler.go that send one frame, with their options, and `expect`.
use gtest.Http2.Handler.Actions.{Handled, lifted, with_options}
use gtest.Common.{
  ℕ, Bool, true, false, ◌||◌, List, [], ◌∷◌, ◌++◌, Option, none, some, ◌==◌, if◌then◌else◌, Bytes,
  codes, bytes_eq, length, take, drop, Result, ok, err, ◌>>=◌,
}
use gtest.Common.Maps.{insert, number_key}
use gtest.Common.Numerals.{parse_uint}
use gtest.Common.Texts.{cut, to_lower}
use gtest.Http2.Conn.{Conn, Settings}
use gtest.Http2.Commands.{done, failed}
use gtest.Http2.Commands.Expect.{expect}
use gtest.Http2.Commands.Frames.{
  tx_settings, tx_ping, tx_go_away, tx_rst, tx_winup, tx_priority, send_hex,
}
use gtest.Http2.Handler.{HandlerError, missing_argument, bad_boolean, invalid_format}
use gtest.Http2.Handler.Options.{Action, flag, one, read_args, ignored, or_number}

pub record PriorityOptions : Type 0 where
  pub exclusive : Bool
  pub depends_on : ℕ
  pub weight : ℕ

abbrev pub priority_actions : List (Bytes × Action PriorityOptions)
priority_actions =
    (
      codes "-stream",
      one (λ o v. or_number (parse_uint 32 v) >>= λ n. ok (record o { depends_on = n })),
    )
    ∷ (
      codes "-weight",
      one (λ o v. or_number (parse_uint 8 v) >>= λ n. ok (record o { weight = n })),
    )
    ∷ (codes "-excl", flag (λ o. record o { exclusive = true }))
    ∷ []

unfoldable pub handle_tx_prio : Conn → ℕ → List Bytes → Handled
unfolding read_args
handle_tx_prio c i args =
    with_options c
      (read_args priority_actions ignored
        (record { exclusive = false; depends_on = 0; weight = 16 }) args)
      (λ o. (tx_priority c i o.exclusive o.depends_on o.weight, done))

-- The one option of `txrst`, and the one of `txwinup`.
abbrev pub number_action : Bytes → List (Bytes × Action ℕ)
number_action name = (name, one (λ o v. or_number (parse_uint 32 v))) ∷ []

unfoldable pub handle_tx_rst : Conn → ℕ → List Bytes → Handled
unfolding read_args
handle_tx_rst c i args =
    with_options c (read_args (number_action (codes "-err")) ignored 0 args)
      (λ n. (tx_rst c i n, done))

unfoldable pub handle_tx_winup : Conn → ℕ → List Bytes → Handled
unfolding read_args
handle_tx_winup c i args =
    with_options c (read_args (number_action (codes "-size")) ignored 1 args)
      (λ n. (tx_winup c i n, done))

-- `copy` of at most eight bytes into the array.
abbrev pub copied : Bytes → Bytes → Bytes
copied array v = let s = take 8 v in s ++ drop (length s) array

abbrev pub ping_actions : List (Bytes × Action (Bytes × Bool))
ping_actions =
    (codes "-data", one (λ o v. ok (copied o.0 v, o.1)))
    ∷ (codes "-ack", flag (λ o. (o.0, true)))
    ∷ []

unfoldable pub handle_tx_ping : Conn → List Bytes → Handled
unfolding read_args
handle_tx_ping c args =
    with_options c (read_args ping_actions ignored (0 ∷ 0 ∷ 0 ∷ 0 ∷ 0 ∷ 0 ∷ 0 ∷ 0 ∷ [], false) args)
      (λ o. (tx_ping c o.1 o.0, done))

pub record GoAwayOptions : Type 0 where
  pub last_stream_id : ℕ
  pub error_code : ℕ
  pub debug : Bytes

abbrev pub go_away_actions : List (Bytes × Action GoAwayOptions)
go_away_actions =
    (
      codes "-laststream",
      one (λ o v. or_number (parse_uint 32 v) >>= λ n. ok (record o { last_stream_id = n })),
    )
    ∷ (
      codes "-err",
      one (λ o v. or_number (parse_uint 32 v) >>= λ n. ok (record o { error_code = n })),
    )
    ∷ (codes "-debug", one (λ o v. ok (record o { debug = v })))
    ∷ []

unfoldable pub handle_tx_go_away : Conn → List Bytes → Handled
unfolding read_args
handle_tx_go_away c args =
    with_options c
      (read_args go_away_actions ignored (record { last_stream_id = 0; error_code = 0; debug = [] })
        args)
      (λ o. (tx_go_away c o.last_stream_id o.error_code o.debug, done))

unfoldable pub parse_bool : Bytes → Result HandlerError Bool
unfolding to_lower
parse_bool s =
    let t = to_lower s in
    if bytes_eq t (codes "true") || bytes_eq t (codes "1") || bytes_eq t (codes "yes")
    then ok true
    else if bytes_eq t (codes "false") || bytes_eq t (codes "0") || bytes_eq t (codes "no")
    then ok false
    else err bad_boolean

-- The acknowledgement flag, and the settings by their numbers.
abbrev pub SettingsOptions : Type 0
SettingsOptions = Bool × Settings

abbrev setting_action : Bytes → ℕ → Bytes × Action SettingsOptions
setting_action name id =
    (name, one (λ o v. or_number (parse_uint 32 v) >>= λ n. ok (o.0, insert id n o.1)))

abbrev pub settings_actions : List (Bytes × Action SettingsOptions)
settings_actions =
    (codes "-ack", flag (λ o. (true, o.1)))
    ∷ (
      codes "-push",
      one (λ o v. parse_bool v >>= λ b. ok (o.0, insert 2 (if b then 1 else 0) o.1)),
    )
    ∷ setting_action (codes "-hdrtbl") 1
    ∷ setting_action (codes "-maxstreams") 3
    ∷ setting_action (codes "-winsize") 4
    ∷ setting_action (codes "-framesize") 5
    ∷ setting_action (codes "-hdrsize") 6
    ∷ []

unfoldable pub handle_tx_settings : Conn → List Bytes → Handled
unfolding read_args
handle_tx_settings c args =
    with_options c (read_args settings_actions ignored (false, []) args)
      (λ o. (tx_settings c o.0 o.1, done))

-- `strings.Join`
unfoldable pub join : Bytes → List Bytes → Bytes
join sep [] = []
join sep (a ∷ []) = a
join sep (a ∷ b ∷ rest) = a ++ (sep ++ join sep (b ∷ rest))

unfoldable pub handle_send_hex : Conn → List Bytes → Handled
unfolding join
handle_send_hex c [] = (c, failed missing_argument)
handle_send_hex c (a ∷ args) = lifted (send_hex c (join (codes " ") (a ∷ args)))

abbrev has_dot : Option (Bytes × Bytes) → Bool
has_dot none = false
has_dot (some _) = true

-- The expectations of stream 0 are not compared with anything.
unfoldable pub handle_connection_expect : Conn → Bytes → Bytes → Bytes → Handled
unfolding cut
handle_connection_expect c field op expected =
    if has_dot (cut b'.' field) then (c, done) else (c, failed invalid_format)

unfoldable pub handle_expect : Conn → ℕ → List Bytes → Handled
unfolding join handle_connection_expect
handle_expect c i (field ∷ op ∷ v ∷ vs) =
    let expected = join (codes " ") (v ∷ vs) in
    if i == 0
    then handle_connection_expect c field op expected
    else lifted (expect c i field op expected)
handle_expect c i _ = (c, failed missing_argument)
