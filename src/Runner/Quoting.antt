-- ===== src/Runner/Quoting.antt =====
-- A line that `nodeToSpec` of cmd/gvtest/handlers.go writes and `tokenizeCommand` of
-- pkg/http2/handler.go reads, once, and twice, as the lines of a block are.
use gtest.Common.{
  ℕ, ◌≡◌, ◌≢◌, refl, sym, ◌∙◌, ap, Bool, true, false, not, ◌&&◌, ◌||◌, List, [], ◌∷◌, ◌++◌,
  append-nil, append_assoc, Bytes, codes, All, Bool-cases, inl, inr, arith,
}
use gtest.Common.Strings.{has_prefix, contains}
use gtest.Http2.Handler.{char_kind, command_tokens, tokenize_command}
use gtest.Http2.Handler.FrameActions.{join}
use gtest.Http2.Handler.Tokens.{
  IsPlain, IsQuotable, command_tokens-plain, command_tokens-quoted, command_tokens-opening,
  command_tokens-closing, command_tokens-blank, command_tokens-end, flush_lem,
}
use gtest.Runner.Specs.{needs_quoting, quoted, quoted_all, join_args, simple_line}

-- An argument that is not empty, without quotes, backslashes and tabs.
abbrev pub IsArgByte : ℕ → Type 0
IsArgByte c = (c ≢ b'\\') × (c ≢ b'"') × (c ≢ b'\t')

abbrev pub IsArg : Bytes → Type 0
IsArg a = (a ≢ []) × All IsArgByte a

quotable : (c : ℕ) → IsArgByte c → IsQuotable c
unfolding char_kind
quotable c (p, q, r) = ground arith

plain_byte : (c : ℕ) → IsArgByte c → c ≢ b' ' → IsPlain c
unfolding char_kind
plain_byte c (p, q, r) h = ground arith

IsQuotable-all : (a : Bytes) → All IsArgByte a → All IsQuotable a
IsQuotable-all [] h = tt
IsQuotable-all (c ∷ a) (p, h) = (quotable c p, IsQuotable-all a h)

plain_all : (a : Bytes) → All IsArgByte a → contains a (codes " ") ≡ false → All IsPlain a
unfolding contains has_prefix
plain_all [] h k = tt
plain_all (c ∷ a) (p, h) k = (plain_byte c p (ground (arith, k)), plain_all a h (ground (arith, k)))

no_blank : (a b c : Bool) → (a || (b && c)) ≡ false → a ≡ false
no_blank true b c h = h
no_blank false b c h = refl

-- A quoted argument is read as far as its end.
pub quoted_tokens :
    (a s : Bytes)
    → All IsArgByte a
    → command_tokens false false [] (quoted a ++ s) ≡ command_tokens false false a s
unfolding needs_quoting
quoted_tokens a s h = elim (Bool-cases (needs_quoting a)) [
  | inl e ↦ rw e (
      command_tokens-opening [] ((a ++ (b'"' ∷ [])) ++ s)
      ∙ ap (λ t. command_tokens false true [] t) (append_assoc a (b'"' ∷ []) s)
      ∙ command_tokens-quoted a [] (b'"' ∷ s) (IsQuotable-all a h)
      ∙ command_tokens-closing a s)
  | inr e ↦ rw e (
      command_tokens-plain a [] s (
        plain_all a h (
          no_blank (contains a (codes " ")) (contains a (codes ":"))
            (not (has_prefix a (codes "-"))) e)))
]

tokens-join :
    (a : Bytes) (args : List Bytes)
    → IsArg a
    → All IsArg args
    → command_tokens false false [] (join (codes " ") (quoted_all (a ∷ args))) ≡ a ∷ args
unfolding join
tokens-join a [] (ne, h) k =
    ap (command_tokens false false []) (sym (append-nil (quoted a)))
    ∙ quoted_tokens a [] h
    ∙ command_tokens-end false a
    ∙ flush_lem a [] ne
tokens-join a (b ∷ args) (ne, h) (p, k) =
    quoted_tokens a (b' ' ∷ join (codes " ") (quoted_all (b ∷ args))) h
    ∙ command_tokens-blank a (join (codes " ") (quoted_all (b ∷ args)))
    ∙ flush_lem a (command_tokens false false [] (join (codes " ") (quoted_all (b ∷ args)))) ne
    ∙ ap (◌∷◌ a) (tokens-join b args p k)

-- The line that `nodeToSpec` writes for a command of plain bytes and its arguments, none of them empty
-- and none with a quote, a backslash or a tab, is tokenized into that command and these arguments,
-- those with blanks and colons among them.
pub tokenize_command-simple_line :
    (name : Bytes) (args : List Bytes)
    → name ≢ []
    → All IsPlain name
    → All IsArg args
    → tokenize_command (simple_line name args) ≡ name ∷ args
unfolding tokenize_command simple_line join_args
tokenize_command-simple_line name [] ne h k =
    ap (command_tokens false false []) (sym (append-nil name))
    ∙ command_tokens-plain name [] [] h
    ∙ command_tokens-end false name
    ∙ flush_lem name [] ne
tokenize_command-simple_line name (a ∷ args) ne h (p, k) =
    command_tokens-plain name [] (b' ' ∷ join (codes " ") (quoted_all (a ∷ args))) h
    ∙ command_tokens-blank name (join (codes " ") (quoted_all (a ∷ args)))
    ∙ flush_lem name (command_tokens false false [] (join (codes " ") (quoted_all (a ∷ args)))) ne
    ∙ ap (◌∷◌ name) (tokens-join a args p k)
