-- ===== src/Http2/Handler/Actions.antt =====
-- Commands of pkg/http2/handler.go that send a message: the options that each has, and what it runs
-- with them.
use gtest.Common.{
  ℕ, Bool, true, false, List, [], ◌∷◌, ◌++◌, if◌then◌else◌, Bytes, codes, bytes_eq, pos, Result, ok,
  err, ◌>>=◌,
}
use gtest.Common.Maps.{number_key}
use gtest.Common.Numerals.{atoi}
use gtest.Common.Texts.{cut}
use gtest.Hpack.Encode.Explicit.{
  HpackInstruction, IndexingMode, indexing_inc, indexing_not, indexing_never,
}
use gtest.Http1.Handler.{add_header}
use gtest.Http2.Conn.{Conn}
use gtest.Http2.Commands.{
  TxReqOptions, TxRespOptions, Commanded, Outcome, done, blocked, failed, tx_req, tx_resp, tx_data,
}
use gtest.Http2.Handler.{HandlerError, bad_mode, command_failed}
use gtest.Http2.Handler.Options.{Action, flag, one, four, five, read_args, ignored, or_number}

abbrev pub Handled : Type 0
Handled = Conn × Outcome HandlerError

abbrev pub lifted : Commanded → Handled
lifted (c, done) = (c, done)
lifted (c, blocked) = (c, blocked)
lifted (c, failed e) = (c, failed (command_failed e))

-- A command with the options that were read, or their error.
abbrev pub with_options {ℓ} : {O : Type ℓ} → Conn → Result HandlerError O → (O → Handled) → Handled
with_options c (err e) f = (c, failed e)
with_options c (ok o) f = f o

-- A header block that is spelled out, one instruction for each option. The options of a request and
-- of a response share these, under the change that adds an instruction.
unfoldable pub parse_indexing_mode : Bytes → Result HandlerError IndexingMode
parse_indexing_mode mode =
    if bytes_eq mode (codes "inc")
    then ok indexing_inc
    else if bytes_eq mode (codes "not")
    then ok indexing_not
    else if bytes_eq mode (codes "never")
    then ok indexing_never
    else err bad_mode

abbrev is_huf : Bytes → Bool
is_huf s = bytes_eq s (codes "huf")

unfoldable pub indexed_header : Bytes → Result HandlerError HpackInstruction
indexed_header index = or_number (atoi index) >>= λ i. ok (record {
  kind = codes "indexed";
  index = i;
  name = [];
  value = [];
  indexing_mode = indexing_inc;
  name_huffman = false;
  value_huffman = false;
})

unfoldable pub literal_indexed_header :
    Bytes → Bytes → Bytes → Bytes → Result HandlerError HpackInstruction
unfolding parse_indexing_mode
literal_indexed_header mode index encoding value = do
  m ← parse_indexing_mode mode
  i ← or_number (atoi index)
  ok (record {
    kind = codes "literal-indexed";
    index = i;
    name = [];
    value = value;
    indexing_mode = m;
    name_huffman = false;
    value_huffman = is_huf encoding;
  })

unfoldable pub literal_header :
    Bytes → Bytes → Bytes → Bytes → Bytes → Result HandlerError HpackInstruction
unfolding parse_indexing_mode
literal_header mode name_encoding name encoding value = parse_indexing_mode mode >>= λ m.
    ok (record {
      kind = codes "literal-new";
      index = pos 0;
      name = name;
      value = value;
      indexing_mode = m;
      name_huffman = is_huf name_encoding;
      value_huffman = is_huf encoding;
    })

module _ {O : Type 0} (put : O → HpackInstruction → O) where
  abbrev added : O → Result HandlerError HpackInstruction → Result HandlerError O
  added o r = r >>= λ x. ok (put o x)

  abbrev pub instruction_actions : List (Bytes × Action O)
  instruction_actions =
      (codes "-idxHdr", one (λ o i. added o (indexed_header i)))
      ∷ (codes "-litIdxHdr", four (λ o m i h v. added o (literal_indexed_header m i h v)))
      ∷ (codes "-litHdr", five (λ o m nh n h v. added o (literal_header m nh n h v)))
      ∷ []

abbrev pub new_req_options : TxReqOptions
new_req_options = record {
  method = codes "GET";
  path = codes "/";
  scheme = codes "http";
  authority = codes "localhost";
  headers = [];
  body = [];
  end_stream = true;
  hpack_instructions = [];
}

abbrev pub req_actions : List (Bytes × Action TxReqOptions)
req_actions =
    (codes "-method", one (λ o v. ok (record o { method = v })))
    ∷ (codes "-req", one (λ o v. ok (record o { method = v })))
    ∷ (codes "-url", one (λ o v. ok (record o { path = v })))
    ∷ (codes "-scheme", one (λ o v. ok (record o { scheme = v })))
    ∷ (codes "-hdr", one (λ o v. ok (record o { headers = add_header o.headers (cut b':' v) })))
    ∷ (codes "-body", one (λ o v. ok (record o { body = v })))
    ∷ (codes "-nostrend", flag (λ o. record o { end_stream = false }))
    ∷ instruction_actions
        (λ o x. record o { hpack_instructions = o.hpack_instructions ++ (x ∷ []) })

unfoldable pub handle_tx_req : Conn → ℕ → List Bytes → Handled
unfolding read_args
handle_tx_req c i args =
    with_options c (read_args req_actions ignored new_req_options args) (λ o. lifted (tx_req c i o))

abbrev pub new_resp_options : TxRespOptions
new_resp_options = record {
  status = codes "200";
  headers = [];
  body = [];
  end_stream = true;
  hpack_instructions = [];
}

abbrev pub resp_actions : List (Bytes × Action TxRespOptions)
resp_actions =
    (codes "-status", one (λ o v. ok (record o { status = v })))
    ∷ (codes "-hdr", one (λ o v. ok (record o { headers = add_header o.headers (cut b':' v) })))
    ∷ (codes "-body", one (λ o v. ok (record o { body = v })))
    ∷ (codes "-nostrend", flag (λ o. record o { end_stream = false }))
    ∷ instruction_actions
        (λ o x. record o { hpack_instructions = o.hpack_instructions ++ (x ∷ []) })

unfoldable pub handle_tx_resp : Conn → ℕ → List Bytes → Handled
unfolding read_args
handle_tx_resp c i args =
    with_options c (read_args resp_actions ignored new_resp_options args)
      (λ o. lifted (tx_resp c i o))

-- Any other argument of `txdata` is the bytes themselves.
abbrev pub DataOptions : Type 0
DataOptions = Bytes × Bool

abbrev pub data_actions : List (Bytes × Action DataOptions)
data_actions =
    (codes "-data", one (λ o v. ok (v, o.1))) ∷ (codes "-nostrend", flag (λ o. (o.0, false))) ∷ []

unfoldable pub handle_tx_data : Conn → ℕ → List Bytes → Handled
unfolding read_args
handle_tx_data c i args =
    with_options c (read_args data_actions (λ o a. (a, o.1)) ([], true) args)
      (λ o. lifted (tx_data c i o.0 o.1))
