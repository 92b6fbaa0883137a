-- ===== src/Http1/Handler.antt =====
-- pkg/http1/handler.go: command lines of a session. Durations, files and the commands of pkg/vtc that
-- it hands on to are left out but for the reading of a file, which is given.
use gtest.Common.{
  ℕ, true, false, ◌||◌, List, [], ◌∷◌, ◌++◌, Option, none, some, ◌==◌, ltb, if◌then◌else◌, Bytes,
  codes, ℤ, pos, negsuc, Result, ok, err, ◌>>=◌,
}
use gtest.Common.Maps.{lookup, insert, bytes_key}
use gtest.Common.Numerals.{atoi}
use gtest.Common.Texts.{cut, trim_space}
use gtest.Http1.{Http}
use gtest.Http1.Input.{HttpError}
use gtest.Http1.Send.{Headers, TxReqOptions, TxRespOptions, tx_req, tx_resp}

pub data HandlerError : Type 0 where
  missing_value unknown_option bad_number bad_level no_file : HandlerError
  failed : HttpError → HandlerError

-- `tokenizeCommand`: the tokens behind `current`, where `quote` is the open quote.
abbrev pub flush : Bytes → List Bytes → List Bytes
flush [] ts = ts
flush (c ∷ cs) ts = (c ∷ cs) ∷ ts

unfoldable pub command_tokens : Option ℕ → Bytes → Bytes → List Bytes
command_tokens quote current [] = flush current []
command_tokens none current (c ∷ s) =
    if c == b'"' || c == b'\''
    then command_tokens (some c) current s
    else if c == b' ' || c == b'\t'
    then flush current (command_tokens none [] s)
    else command_tokens none (current ++ (c ∷ [])) s
command_tokens (some q) current (c ∷ s) =
    if c == q
    then command_tokens none current s
    else command_tokens (some q) (current ++ (c ∷ [])) s

unfoldable pub tokenize_command : Bytes → List Bytes
unfolding command_tokens
tokenize_command line = command_tokens none [] line

abbrev pub or_number : Option ℤ → Result HandlerError ℤ
or_number none = err bad_number
or_number (some n) = ok n

-- A `-hdr` without a colon is dropped.
abbrev pub add_header : Headers → Option (Bytes × Bytes) → Headers
add_header m none = m
add_header m (some (n, v)) = insert (trim_space n) (trim_space v) m

-- The loops over options: flags, and options with a value.
module _ {O : Type 0} (flags : List (Bytes × (O → O)))
    (values : List (Bytes × (O → Bytes → Result HandlerError O))) where
  abbrev pub with_value :
      O → Option (O → Bytes → Result HandlerError O) → Bytes → Result HandlerError O
  with_value o none v = err unknown_option
  with_value o (some set) v = set o v

  abbrev pub last_option : O → Option (O → Bytes → Result HandlerError O) → Result HandlerError O
  last_option o none = err unknown_option
  last_option o (some set) = err missing_value

  unfoldable pub read_options : O → List Bytes → Result HandlerError O
  read_options o [] = ok o
  read_options o (a ∷ []) = elim (lookup a flags) [
    | some set ↦ ok (set o)
    | none ↦ last_option o (lookup a values)
  ]
  read_options o (a ∷ v ∷ args) = elim (lookup a flags) [
    | some set ↦ read_options (set o) (v ∷ args)
    | none ↦ with_value o (lookup a values) v >>= λ o'. read_options o' args
  ]

abbrev pub or_no_file : Option Bytes → Result HandlerError (Option Bytes)
or_no_file none = err no_file
or_no_file (some b) = ok (some b)

abbrev pub req_flags : List (Bytes × (TxReqOptions → TxReqOptions))
req_flags =
    (codes "-chunked", λ o. record o { chunked = true })
    ∷ (codes "-gzip", λ o. record o { gzip = true })
    ∷ (codes "-nohost", λ o. record o { no_host = true })
    ∷ (codes "-nouseragent", λ o. record o { no_user_agent = true })
    ∷ []

abbrev pub new_req_options : TxReqOptions
new_req_options = record {
  method = codes "GET";
  url = codes "/";
  proto = codes "HTTP/1.1";
  headers = [];
  body = none;
  body_len = pos 0;
  chunked = false;
  gzip = false;
  no_host = false;
  no_user_agent = false;
}

abbrev pub or_failed : Result HttpError Http → Result HandlerError Http
or_failed (ok h) = ok h
or_failed (err e) = err (failed e)

-- The options of a response, and the session's level of compression.
abbrev pub Response : Type 0
Response = TxRespOptions × ℤ

abbrev pub resp_flags : List (Bytes × (Response → Response))
resp_flags =
    (codes "-chunked", λ o. (record o.0 { chunked = true }, o.1))
    ∷ (codes "-gzip", λ o. (record o.0 { gzip = true }, o.1))
    ∷ (codes "-nolen", λ o. (record o.0 { no_len = true }, o.1))
    ∷ (codes "-noserver", λ o. (record o.0 { no_server = true }, o.1))
    ∷ []

abbrev pub or_level : ℤ → Result HandlerError ℤ
or_level (negsuc n) = err bad_level
or_level (pos n) = if ltb 9 n then err bad_level else ok (pos n)

abbrev pub new_resp_options : TxRespOptions
new_resp_options = record {
  status = pos 200;
  reason = codes "OK";
  proto = codes "HTTP/1.1";
  headers = [];
  body = none;
  body_len = pos 0;
  chunked = false;
  gzip = false;
  no_len = false;
  no_server = false;
}

module _ (read_file : Bytes → Option Bytes) where
  abbrev pub req_values : List (Bytes × (TxReqOptions → Bytes → Result HandlerError TxReqOptions))
  req_values =
      (codes "-method", λ o v. ok (record o { method = v }))
      ∷ (codes "-req", λ o v. ok (record o { method = v }))
      ∷ (codes "-url", λ o v. ok (record o { url = v }))
      ∷ (codes "-proto", λ o v. ok (record o { proto = v }))
      ∷ (codes "-hdr", λ o v. ok (record o { headers = add_header o.headers (cut b':' v) }))
      ∷ (codes "-body", λ o v. ok (record o { body = some v }))
      ∷ (codes "-bodylen", λ o v. or_number (atoi v) >>= λ n. ok (record o { body_len = n }))
      ∷ (codes "-bodyfrom", λ o v. or_no_file (read_file v) >>= λ b. ok (record o { body = b }))
      ∷ (codes "-gzipbody", λ o v. ok (record o { body = some v; gzip = true }))
      ∷ []

  unfoldable pub handle_tx_req :
      (ℤ → Bytes → Option Bytes) → Http → List Bytes → Result HandlerError Http
  unfolding read_options tx_req
  handle_tx_req compress h args = read_options req_flags req_values new_req_options args >>= λ opts.
      or_failed (tx_req compress h opts)

  abbrev pub resp_values : List (Bytes × (Response → Bytes → Result HandlerError Response))
  resp_values =
      (codes "-status", λ o v. or_number (atoi v) >>= λ n. ok (record o.0 { status = n }, o.1))
      ∷ (codes "-reason", λ o v. ok (record o.0 { reason = v }, o.1))
      ∷ (codes "-proto", λ o v. ok (record o.0 { proto = v }, o.1))
      ∷ (
        codes "-hdr",
        λ o v. ok (record o.0 { headers = add_header o.0.headers (cut b':' v) }, o.1),
      )
      ∷ (codes "-body", λ o v. ok (record o.0 { body = some v }, o.1))
      ∷ (codes "-bodylen", λ o v. or_number (atoi v) >>= λ n. ok (record o.0 { body_len = n }, o.1))
      ∷ (
        codes "-bodyfrom",
        λ o v. or_no_file (read_file v) >>= λ b. ok (record o.0 { body = b }, o.1),
      )
      ∷ (codes "-gzipbody", λ o v. ok (record o.0 { body = some v; gzip = true }, o.1))
      ∷ (codes "-gziplevel", λ o v. or_number (atoi v) >>= λ n. or_level n >>= λ l. ok (o.0, l))
      ∷ []

  unfoldable pub handle_tx_resp :
      (ℤ → Bytes → Option Bytes) → Http → List Bytes → Result HandlerError Http
  unfolding read_options tx_resp
  handle_tx_resp compress h args =
      read_options resp_flags resp_values (new_resp_options, h.gzip_level) args >>= λ o.
      or_failed (tx_resp compress (record h { gzip_level = o.1 }) o.0)
