-- ===== src/Common/Texts.antt =====
-- More of Go's `strings` on bytes: trimming, lower case, cutting at a byte.
use Prim.Native.Nat.{ℕ, ◌+◌}
use mathlib.Core.Path.{◌≡◌, refl, ap}
use mathlib.Core.Bool.{Bool, true, false, ◌&&◌, ◌||◌}
use mathlib.Core.List.{[], ◌∷◌, ◌++◌, reverse, reverse_aux, reverse-reverse}
use mathlib.Core.Option.{Option, none, some}
use mathlib.Core.Logic.{◌≢◌}
use native.Mathlib.Omega.{arith}
use gtest.Common.Tests.{◌==◌, leb, if◌then◌else◌}
use gtest.Common.Lists.{Bytes, All}
use gtest.Common.Numerals.{IsWord}

-- `unicode.IsSpace` on one byte, and on the UTF-8 of a character of two bytes and of three.
abbrev pub is_space : ℕ → Bool
is_space c = c == b' ' || (leb 9 c && leb c 13)

abbrev pub is_space2 : ℕ → ℕ → Bool
is_space2 a b = a == 0xc2 && (b == 0x85 || b == 0xa0)

abbrev pub is_space3 : ℕ → ℕ → ℕ → Bool
is_space3 a b c =
    (a == 0xe1 && b == 0x9a && c == 0x80)
    || (a == 0xe2
        && b == 0x80
        && ((leb 0x80 c && leb c 0x8a) || c == 0xa8 || c == 0xa9 || c == 0xaf))
    || (a == 0xe2 && b == 0x81 && c == 0x9f)
    || (a == 0xe3 && b == 0x80 && c == 0x80)

-- Blanks are taken off the front of a list; the two tests say which bytes are one blank.
module _ (two : ℕ → ℕ → Bool) (three : ℕ → ℕ → ℕ → Bool) where
  unfoldable pub trim_front : Bytes → Bytes
  trim_front [] = []
  trim_front (a ∷ []) = if is_space a then [] else a ∷ []
  trim_front (a ∷ b ∷ []) =
      let one = trim_front (b ∷ []) in
      if is_space a then one else if two a b then [] else a ∷ b ∷ []
  trim_front (a ∷ b ∷ c ∷ s) =
      let one = trim_front (b ∷ c ∷ s) in
      let pair = trim_front (c ∷ s) in
      let triple = trim_front s in
      if is_space a
      then one
      else if two a b
      then pair
      else if three a b c
      then triple
      else a ∷ b ∷ c ∷ s

abbrev pub trim_left : Bytes → Bytes
trim_left s = trim_front is_space2 is_space3 s

-- From the back the bytes of a character come in reverse.
abbrev pub trim_right : Bytes → Bytes
trim_right s = reverse (trim_front (λ a b. is_space2 b a) (λ a b c. is_space3 c b a) (reverse s))

-- `strings.TrimSpace`
unfoldable pub trim_space : Bytes → Bytes
trim_space s = trim_right (trim_left s)

-- `strings.ToLower` on a text of ASCII characters.
abbrev pub lower : ℕ → ℕ
lower c = if leb b'A' c && leb c b'Z' then c + 32 else c

unfoldable pub to_lower : Bytes → Bytes
to_lower [] = []
to_lower (c ∷ cs) = lower c ∷ to_lower cs

-- What stands before and behind the first such byte.
abbrev pub put_before : ℕ → Option (Bytes × Bytes) → Option (Bytes × Bytes)
put_before c none = none
put_before c (some (a, b)) = some (c ∷ a, b)

unfoldable pub cut : ℕ → Bytes → Option (Bytes × Bytes)
cut sep [] = none
cut sep (c ∷ cs) = if c == sep then some ([], cs) else put_before c (cut sep cs)

abbrev pub Lacks : ℕ → Bytes → Type 0
Lacks b = All (λ c. c ≢ b)

-- A text is cut at the first separator.
pub cut-append : (sep : ℕ) (a b : Bytes) → Lacks sep a → cut sep (a ++ (sep ∷ b)) ≡ some (a, b)
unfolding cut
cut-append sep [] b h = ground arith
cut-append sep (c ∷ a) b (h, hs) =
    let other : (c == sep) ≡ false = ground arith in rw (other, cut-append sep a b hs)

-- `strings.TrimRight(s, "\r\n")`
abbrev pub is_newline : ℕ → Bool
is_newline c = c == b'\r' || c == b'\n'

abbrev pub kept : ℕ → Bytes → Bytes
kept c [] = if is_newline c then [] else c ∷ []
kept c (d ∷ ds) = c ∷ d ∷ ds

unfoldable pub trim_newlines : Bytes → Bytes
trim_newlines [] = []
trim_newlines (c ∷ cs) = kept c (trim_newlines cs)

-- The end of a line goes.
pub trim_newlines-crlf : (s : Bytes) → trim_newlines (s ++ (b'\r' ∷ b'\n' ∷ [])) ≡ trim_newlines s
unfolding trim_newlines
trim_newlines-crlf [] = refl
trim_newlines-crlf (c ∷ cs) = ap (kept c) (trim_newlines-crlf cs)

-- A byte that ends no line protects what is before it.
pub trim_newlines-append :
    (a : Bytes) (c : ℕ) (b : Bytes)
    → is_newline c ≡ false
    → trim_newlines b ≡ b
    → trim_newlines (a ++ (c ∷ b)) ≡ a ++ (c ∷ b)
unfolding trim_newlines
trim_newlines-append [] c [] h k = rw h
trim_newlines-append [] c (d ∷ b) h k = rw k
trim_newlines-append (x ∷ []) c b h k = ap (kept x) (trim_newlines-append [] c b h k)
trim_newlines-append (x ∷ y ∷ a) c b h k = ap (kept x) (trim_newlines-append (y ∷ a) c b h k)

pub cut-none : (sep : ℕ) (a : Bytes) → Lacks sep a → cut sep a ≡ none
unfolding cut
cut-none sep [] h = refl
cut-none sep (c ∷ a) (h, hs) =
    let other : (c == sep) ≡ false = ground arith in rw (other, cut-none sep a hs)

put_before-ne-none : (c : ℕ) (o : Option (Bytes × Bytes)) → put_before c o ≡ none → o ≡ none
put_before-ne-none c none h = refl
put_before-ne-none c (some (a, b)) h = cc

not_there :
    (found : Bool) (x : Bytes × Bytes) (o : Option (Bytes × Bytes))
    → (if found then some x else o) ≡ none
    → (found ≡ false) × (o ≡ none)
not_there true x o h = cc
not_there false x o h = (refl, h)

pub cut-Lacks : (sep : ℕ) (a : Bytes) → cut sep a ≡ none → Lacks sep a
unfolding cut
cut-Lacks sep [] h = tt
cut-Lacks sep (c ∷ a) h =
    let (other, rest) = not_there (c == sep) _ (put_before c (cut sep a)) h in
    (ground arith, cut-Lacks sep a (put_before-ne-none c (cut sep a) rest))

All-reverse_aux : (P : ℕ → Type 0) (s t : Bytes) → All P s → All P t → All P (reverse_aux s t)
All-reverse_aux P [] t h k = k
All-reverse_aux P (c ∷ s) t (p, h) k = All-reverse_aux P s (c ∷ t) h (p, k)

-- Digits hold no blank, whatever order the bytes of a blank are taken in.
trim_front-words :
    (two : ℕ → ℕ → Bool) (three : ℕ → ℕ → ℕ → Bool)
    → ((a b : ℕ) → IsWord a → IsWord b → two a b ≡ false)
    → ((a b c : ℕ) → IsWord a → IsWord b → IsWord c → three a b c ≡ false)
    → (s : Bytes) → All IsWord s
    → trim_front two three s ≡ s
unfolding trim_front
trim_front-words two three p q [] h = refl
trim_front-words two three p q (a ∷ []) (x, h) = ground arith
trim_front-words two three p q (a ∷ b ∷ []) (x, (y, h)) = ground (arith, p a b x y)
trim_front-words two three p q (a ∷ b ∷ c ∷ s) (x, (y, (z, h))) =
    ground (arith, p a b x y, q a b c x y z)

pub trim_space-words : (s : Bytes) → All IsWord s → trim_space s ≡ s
unfolding trim_space
trim_space-words s h =
    let left =
      trim_front-words is_space2 is_space3 (λ a b x y. ground arith) (λ a b c x y z. ground arith) s
        h in
    let back =
      trim_front-words (λ a b. is_space2 b a) (λ a b c. is_space3 c b a) (λ a b x y. ground arith)
        (λ a b c x y z. ground arith) (reverse s) (All-reverse_aux IsWord s [] h tt) in
    rw (left, back) (reverse-reverse s)

-- A text with no line feed and no carriage return loses nothing.
pub trim_newlines-words : (s : Bytes) → All IsWord s → trim_newlines s ≡ s
unfolding trim_newlines
trim_newlines-words [] h = refl
trim_newlines-words (c ∷ []) (x, h) = ground arith
trim_newlines-words (c ∷ d ∷ s) (x, h) = rw (trim_newlines-words (d ∷ s) h)

-- A blank before a text goes.
trim_front-blank :
    (two : ℕ → ℕ → Bool) (three : ℕ → ℕ → ℕ → Bool) (s : Bytes)
    → trim_front two three (b' ' ∷ s) ≡ trim_front two three s
unfolding trim_front
trim_front-blank two three [] = refl
trim_front-blank two three (a ∷ []) = refl
trim_front-blank two three (a ∷ b ∷ s) = refl

pub trim_space-blank : (s : Bytes) → trim_space (b' ' ∷ s) ≡ trim_space s
unfolding trim_space
trim_space-blank s = rw (trim_front-blank is_space2 is_space3 s)
