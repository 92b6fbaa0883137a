-- ===== src/Http2/Handler/Tokens.antt =====
-- `tokenizeCommand` of pkg/http2/handler.go on texts without escapes.
use gtest.Common.{
  ℕ, ◌≡◌, ◌≢◌, refl, ◌∙◌, ap, Bool, true, false, List, [], ◌∷◌, ◌++◌, append-nil, append_assoc,
  Bytes, All,
}
use gtest.Http1.Handler.{flush}
use gtest.Http2.Handler.{CharKind, escape, quote, blank, plain, char_kind, command_tokens}

-- A byte that the tokenizer takes as it is, inside quotes and outside.
abbrev pub IsPlain : ℕ → Type 0
IsPlain c = char_kind c ≡ plain

-- A byte that it takes as it is inside quotes.
abbrev pub IsQuotable : ℕ → Type 0
IsQuotable c = (char_kind c ≢ escape) × (char_kind c ≢ quote)

pub command_tokens-plain :
    (w current s : Bytes)
    → All IsPlain w
    → command_tokens false false current (w ++ s) ≡ command_tokens false false (current ++ w) s
unfolding command_tokens
command_tokens-plain [] current s h = rw (append-nil current)
command_tokens-plain (c ∷ w) current s (p, h) =
    rw (command_tokens, p)
      (command_tokens-plain w (current ++ (c ∷ [])) s h
        ∙ ap (λ t. command_tokens false false t s) (append_assoc current (c ∷ []) w))

quoted_byte :
    (c : ℕ) (current s : Bytes) (k : CharKind)
    → char_kind c ≡ k
    → k ≢ escape
    → k ≢ quote
    → command_tokens false true current (c ∷ s) ≡ command_tokens false true (current ++ (c ∷ [])) s
unfolding command_tokens
quoted_byte c current s escape e p q = absurd (p refl)
quoted_byte c current s quote e p q = absurd (q refl)
quoted_byte c current s blank e p q = rw (command_tokens, e)
quoted_byte c current s plain e p q = rw (command_tokens, e)

pub command_tokens-quoted :
    (w current s : Bytes)
    → All IsQuotable w
    → command_tokens false true current (w ++ s) ≡ command_tokens false true (current ++ w) s
command_tokens-quoted [] current s h = rw (append-nil current)
command_tokens-quoted (c ∷ w) current s ((p, q), h) =
    quoted_byte c current (w ++ s) (char_kind c) refl p q
    ∙ command_tokens-quoted w (current ++ (c ∷ [])) s h
    ∙ ap (λ t. command_tokens false true t s) (append_assoc current (c ∷ []) w)

-- The bytes that the tokenizer does not take, outside of escapes.
pub command_tokens-opening :
    (current s : Bytes)
    → command_tokens false false current (b'"' ∷ s) ≡ command_tokens false true current s
unfolding command_tokens char_kind
command_tokens-opening current s = refl

pub command_tokens-closing :
    (current s : Bytes)
    → command_tokens false true current (b'"' ∷ s) ≡ command_tokens false false current s
unfolding command_tokens char_kind
command_tokens-closing current s = refl

pub command_tokens-blank :
    (current s : Bytes)
    → command_tokens false false current (b' ' ∷ s)
      ≡ flush current (command_tokens false false [] s)
unfolding command_tokens char_kind
command_tokens-blank current s = refl

pub command_tokens-end :
    (q : Bool) (current : Bytes) → command_tokens false q current [] ≡ flush current []
unfolding command_tokens
command_tokens-end q current = refl

pub flush_lem : (a : Bytes) (ts : List Bytes) → a ≢ [] → flush a ts ≡ a ∷ ts
flush_lem [] ts h = absurd (h refl)
flush_lem (c ∷ a) ts h = refl
