-- ===== src/Runner/Blocks.antt =====
-- Texts without quotes, as `handleStream` of pkg/http2/handler.go joins them and `ProcessStreamCommand`
-- tokenizes them.
use gtest.Common.{
  ℕ, ◌≡◌, ◌≢◌, refl, sym, ◌∙◌, ap, true, false, List, [], ◌∷◌, ◌++◌, append-nil, append_assoc, ◌==◌,
  ==_iff, Bytes, codes, All, All-append, Bool-cases, inl, inr, arith,
}
use gtest.Http1.Handler.{flush}
use gtest.Http2.Handler.{plain, char_kind, command_tokens, tokenize_command}
use gtest.Http2.Handler.FrameActions.{join}
use gtest.Http2.Handler.Scripts.{split, put_first}
use gtest.Http2.Handler.Waiting.{split_cons}
use gtest.Http2.Handler.Tokens.{command_tokens-blank, command_tokens-end}
use gtest.Runner.Quoting.{IsArgByte, IsArg}

-- What stands between the blanks of a text.
abbrev pub non_empty : List Bytes → List Bytes
non_empty [] = []
non_empty (a ∷ ws) = flush a (non_empty ws)

unfoldable pub pieces : Bytes → List Bytes
unfolding split
pieces s = non_empty (split b' ' s)

-- A text before the first part.
abbrev prepend : Bytes → List Bytes → List Bytes
prepend a [] = a ∷ []
prepend a (l ∷ ls) = (a ++ l) ∷ ls

prepend_first :
    (a : Bytes) (c : ℕ) (ls : List Bytes) → prepend (a ++ (c ∷ [])) ls ≡ prepend a (put_first c ls)
prepend_first a c [] = refl
prepend_first a c (l ∷ ls) = ap (λ x. x ∷ ls) (append_assoc a (c ∷ []) l)

plain_step :
    (c : ℕ) (current s : Bytes)
    → IsArgByte c
    → c ≢ b' '
    → command_tokens false false current (c ∷ s)
      ≡ command_tokens false false (current ++ (c ∷ [])) s
unfolding command_tokens
plain_step c current s (p, q, r) h =
    let k : char_kind c ≡ plain = unfold char_kind in ground arith in rw (command_tokens, k)

blank_step :
    (c : ℕ) (current s : Bytes)
    → (c == b' ') ≡ true
    → command_tokens false false current (c ∷ s) ≡ flush current (command_tokens false false [] s)
blank_step c current s e =
    let k : c ≡ b' ' = (==_iff c b' ').0 e in
    ap (λ x. command_tokens false false current (x ∷ s)) k ∙ command_tokens-blank current s

non_empty-prepend : (ls : List Bytes) → non_empty (prepend [] ls) ≡ non_empty ls
non_empty-prepend [] = refl
non_empty-prepend (l ∷ ls) = refl

command_tokens-split :
    (current s : Bytes)
    → All IsArgByte s
    → command_tokens false false current s ≡ non_empty (prepend current (split b' ' s))
unfolding split
command_tokens-split current [] h = command_tokens-end false current ∙ rw (append-nil current)
command_tokens-split current (c ∷ s) (p, h) = elim (Bool-cases (c == b' ')) [
  | inl e ↦
      blank_step c current s e
      ∙ ap (flush current) (command_tokens-split [] s h ∙ non_empty-prepend (split b' ' s))
      ∙ rw (e, append-nil current) refl
  | inr e ↦
      plain_step c current s p (ground (arith, e))
      ∙ command_tokens-split (current ++ (c ∷ [])) s h
      ∙ rw e (ap non_empty (prepend_first current c (split b' ' s)))
]

-- A text without quotes, backslashes and tabs is tokenized into what stands between its blanks.
pub tokenize_command-pieces : (s : Bytes) → All IsArgByte s → tokenize_command s ≡ pieces s
unfolding tokenize_command pieces
tokenize_command-pieces s h = command_tokens-split [] s h ∙ non_empty-prepend (split b' ' s)

first_append :
    (c : ℕ) (l : Bytes) (ls ms : List Bytes)
    → put_first c ((l ∷ ls) ++ ms) ≡ put_first c (l ∷ ls) ++ ms
first_append c l ls ms = refl

split-append : (a b : Bytes) → split b' ' (a ++ (b' ' ∷ b)) ≡ split b' ' a ++ split b' ' b
unfolding split
split-append [] b = refl
split-append (c ∷ a) b = elim (Bool-cases (c == b' ')) [
  | inl e ↦ rw e (ap (◌∷◌ []) (split-append a b))
  | inr e ↦
      let (l, ls, k) = split_cons b' ' a in
      rw e (ap (put_first c) (split-append a b) ∙ rw k (first_append c l ls (split b' ' b)))
]

flush-append : (a : Bytes) (xs ys : List Bytes) → flush a (xs ++ ys) ≡ flush a xs ++ ys
flush-append [] xs ys = refl
flush-append (c ∷ a) xs ys = refl

non_empty-append : (xs ys : List Bytes) → non_empty (xs ++ ys) ≡ non_empty xs ++ non_empty ys
non_empty-append [] ys = refl
non_empty-append (a ∷ xs) ys =
    ap (flush a) (non_empty-append xs ys) ∙ flush-append a (non_empty xs) (non_empty ys)

pieces-append : (a b : Bytes) → pieces (a ++ (b' ' ∷ b)) ≡ pieces a ++ pieces b
unfolding pieces
pieces-append a b = ap non_empty (split-append a b) ∙ non_empty-append (split b' ' a) (split b' ' b)

-- The pieces of each argument, one after the other.
abbrev pub pieces_of : List Bytes → List Bytes
pieces_of [] = []
pieces_of (a ∷ args) = pieces a ++ pieces_of args

pieces-join : (args : List Bytes) → pieces (join (codes " ") args) ≡ pieces_of args
unfolding join
pieces-join [] = unfold pieces in unfold split in refl
pieces-join (a ∷ []) = sym (append-nil (pieces a))
pieces-join (a ∷ b ∷ args) =
    pieces-append a (join (codes " ") (b ∷ args)) ∙ ap (◌++◌ (pieces a)) (pieces-join (b ∷ args))

blank_byte : IsArgByte b' '
blank_byte = ((λ e. omega arith), (λ e. omega arith), (λ e. omega arith))

join_bytes : (args : List Bytes) → All IsArg args → All IsArgByte (join (codes " ") args)
unfolding join
join_bytes [] h = tt
join_bytes (a ∷ []) ((ne, p), h) = p
join_bytes (a ∷ b ∷ args) ((ne, p), h) =
    All-append IsArgByte a (b' ' ∷ join (codes " ") (b ∷ args)) p
      (blank_byte, join_bytes (b ∷ args) h)

-- Arguments of which none is empty and none has a quote, a backslash or a tab, joined by blanks, are
-- tokenized into the pieces between blanks of each of them.
pub pieces_of-join :
    (args : List Bytes) → All IsArg args → tokenize_command (join (codes " ") args) ≡ pieces_of args
pieces_of-join args h =
    tokenize_command-pieces (join (codes " ") args) (join_bytes args h) ∙ pieces-join args
