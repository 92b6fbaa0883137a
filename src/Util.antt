-- ===== src/Util.antt =====
-- pkg/util/string.go: the functions with a loop of their own, on bytes.
pub mod Comments
pub mod Bodies
use gtest.Common.{
  ℕ, zero, suc, ◌-◌, Bool, true, false, not, ◌&&◌, List, [], ◌∷◌, ◌++◌, Option, none, some, ◌==◌,
  ltb, leb, if◌then◌else◌, Bytes, length, take, ℤ, pos, negsuc,
}

-- The loop of `StripComments`, which keeps the bytes up to the `#` that it returns at.
unfoldable pub strip_from : Bool → Bool → Bytes → Bytes
strip_from in_quote escape [] = []
strip_from in_quote escape (c ∷ cs) =
    if escape
    then c ∷ strip_from in_quote false cs
    else if c == b'\\'
    then c ∷ strip_from in_quote true cs
    else if c == b'"'
    then c ∷ strip_from (not in_quote) false cs
    else if (c == b'#') && not in_quote
    then []
    else c ∷ strip_from in_quote false cs

unfoldable pub strip_comments : Bytes → Bytes
strip_comments line = strip_from false false line

-- The loop of `GenerateBody`. Each round writes a byte at least, so the length is enough fuel.
unfoldable pub generate_loop : ℕ → ℕ → Bytes → Bytes → Bytes
generate_loop zero len pattern buf = buf
generate_loop (suc fuel) len pattern buf =
    let remaining = len - length buf in
    let piece = if leb (length pattern) remaining then pattern else take remaining pattern in
    let rest = generate_loop fuel len pattern (buf ++ piece) in
    if ltb (length buf) len then rest else buf

abbrev pub pattern_or_default : Bytes → Bytes
pattern_or_default [] = b'X' ∷ []
pattern_or_default (c ∷ cs) = c ∷ cs

-- `none` is the panic of `buf.Grow` at a negative length.
unfoldable pub generate_body : ℤ → Bytes → Option Bytes
generate_body (negsuc n) pattern = none
generate_body (pos n) pattern = some (generate_loop n n (pattern_or_default pattern) [])
