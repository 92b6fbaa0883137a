-- ===== src/Vtc/Escapes.antt =====
-- The escapes of a string in braces, as `processEscapeSequences` of pkg/vtc/parser.go reads them.
use gtest.Common.{
  ℕ, ◌+◌, ◌*◌, ◌/◌, ◌%◌, ◌≡◌, ◌≢◌, refl, ap, ap₂, ◌∙◌, false, List, [], ◌∷◌, ◌==◌, Bytes, IsByte,
  All, arith,
}
use gtest.Common.Numerals.{digit, digit_value, digit_value-digit, in_base}
use gtest.Vtc.Parser.{hex_or_backslash, escape_from, process_escape_sequences}

-- How a byte is spelled.
pub data Spelling : Type 0 where
  plain hex : ℕ → Spelling
  null newline return tab backslash : Spelling

-- The bytes of a spelling before those of `rest`.
abbrev pub spell : Spelling → Bytes → Bytes
spell (plain c) rest = c ∷ rest
spell (hex b) rest = b'\\' ∷ b'x' ∷ digit (b / 16) ∷ digit (b % 16) ∷ rest
spell null rest = b'\\' ∷ b'0' ∷ rest
spell newline rest = b'\\' ∷ b'n' ∷ rest
spell return rest = b'\\' ∷ b'r' ∷ rest
spell tab rest = b'\\' ∷ b't' ∷ rest
spell backslash rest = b'\\' ∷ b'\\' ∷ rest

abbrev pub spelled : Spelling → ℕ
spelled (plain c) = c
spelled (hex b) = b
spelled null = 0
spelled newline = b'\n'
spelled return = b'\r'
spelled tab = b'\t'
spelled backslash = b'\\'

abbrev pub IsSpelling : Spelling → Type 0
IsSpelling (plain c) = c ≢ b'\\'
IsSpelling (hex b) = IsByte b
IsSpelling _ = Unit

unfoldable pub spell_all : List Spelling → Bytes
spell_all [] = []
spell_all (p ∷ ps) = spell p (spell_all ps)

abbrev pub spelled_all : List Spelling → Bytes
spelled_all [] = []
spelled_all (p ∷ ps) = spelled p ∷ spelled_all ps

escape_from-plain : (c : ℕ) (s : Bytes) → c ≢ b'\\' → escape_from 0 (c ∷ s) ≡ c ∷ escape_from 0 s
unfolding escape_from
escape_from-plain c [] h = refl
escape_from-plain c (d ∷ s) h = let other : (c == b'\\') ≡ false = ground arith in rw other

hex_or_backslash-digits :
    (b : ℕ)
    → IsByte b
    → hex_or_backslash
        (in_base 16 (digit_value (digit (b / 16))))
        (in_base 16 (digit_value (digit (b % 16))))
      ≡ (b, 3)
hex_or_backslash-digits b h =
    let whole : b / 16 * 16 + b % 16 ≡ b = omega arith in
    ap₂ hex_or_backslash (digit_value-digit 16 (b / 16) (omega arith) (omega arith))
      (digit_value-digit 16 (b % 16) (omega arith) (omega arith))
    ∙ ap (λ v. (v, 3)) whole

escape_from-hex :
    (b : ℕ) (s : Bytes) → IsByte b → escape_from 0 (spell (hex b) s) ≡ b ∷ escape_from 0 s
unfolding escape_from
escape_from-hex b s h =
    ap (λ (r : ℕ × ℕ). r.0 ∷ escape_from r.1 (b'x' ∷ digit (b / 16) ∷ digit (b % 16) ∷ s))
      (hex_or_backslash-digits b h)

escape_from-spell :
    (p : Spelling) (s : Bytes)
    → IsSpelling p
    → escape_from 0 (spell p s) ≡ spelled p ∷ escape_from 0 s
unfolding escape_from
escape_from-spell (plain c) s h = escape_from-plain c s h
escape_from-spell (hex b) s h = escape_from-hex b s h
escape_from-spell null s h = refl
escape_from-spell newline s h = refl
escape_from-spell return s h = refl
escape_from-spell tab s h = refl
escape_from-spell backslash s h = refl

-- Every byte has a spelling that is read back: other bytes than a backslash stand for themselves, and
-- any byte can be written as an escape of two hexadecimal digits.
pub process_escape_sequences-spell_all :
    (ps : List Spelling)
    → All IsSpelling ps
    → process_escape_sequences (spell_all ps) ≡ spelled_all ps
unfolding process_escape_sequences spell_all escape_from
process_escape_sequences-spell_all [] h = refl
process_escape_sequences-spell_all (p ∷ ps) (h, hs) =
    escape_from-spell p (spell_all ps) h
    ∙ ap (λ s. spelled p ∷ s) (process_escape_sequences-spell_all ps hs)
