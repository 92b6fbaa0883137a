-- ===== src/Http2/Handler.antt =====
-- pkg/http2/handler.go: command lines of an HTTP/2 session. Options reads the options of a command,
-- Actions and FrameActions hold the options that each command has, Scripts runs the lines of a
-- specification, and Tasks the streams that it starts.
pub mod Options
pub mod Actions
pub mod FrameActions
pub mod Scripts
pub mod Tasks
pub mod Running
pub mod Linked
pub mod Waiting
pub mod Reading
pub mod Kept
pub mod Tokens
use gtest.Common.{
  ℕ, Bool, true, false, not, ◌||◌, List, [], ◌∷◌, ◌++◌, ◌==◌, if◌then◌else◌, Bytes, codes, bytes_eq,
}
use gtest.Http1.Handler.{flush}
use gtest.Http2.Conn.{ConnError}
use gtest.Http2.Commands.{CommandError}

pub data HandlerError : Type 0 where
  missing_value bad_number bad_boolean bad_mode missing_argument bad_duration : HandlerError
  unknown_command no_spec not_started invalid_format : HandlerError
  command_failed : CommandError → HandlerError
  conn_failed : ConnError → HandlerError
  stream_failed : HandlerError → HandlerError

-- What a byte does outside an escape.
pub data CharKind : Type 0 where
  escape quote blank plain : CharKind

unfoldable pub char_kind : ℕ → CharKind
char_kind c =
    if c == b'\\'
    then escape
    else if c == b'"'
    then quote
    else if c == b' ' || c == b'\t'
    then blank
    else plain

-- `tokenizeCommand`: the tokens behind `current`. It goes by characters; on the bytes of UTF-8 that is
-- the same.
unfoldable pub command_tokens : (escaped : Bool) → (in_quote : Bool) → Bytes → Bytes → List Bytes
command_tokens e q current [] = flush current []
command_tokens true q current (c ∷ s) = command_tokens false q (current ++ (c ∷ [])) s
command_tokens false q current (c ∷ s) = elim (char_kind c) [
  | escape ↦ command_tokens true q current s
  | quote ↦ command_tokens false (not q) current s
  | blank ↦ elim q [
    | true ↦ command_tokens false true (current ++ (c ∷ [])) s
    | false ↦ flush current (command_tokens false false [] s)
  ]
  | plain ↦ command_tokens false q (current ++ (c ∷ [])) s
]

unfoldable pub tokenize_command : Bytes → List Bytes
unfolding command_tokens char_kind
tokenize_command line = command_tokens false false [] line
