-- ===== src/Http1/Input.antt =====
-- The receive buffer of pkg/http1/http.go: a reader takes the bytes not yet read, and gives a value or
-- an error with the bytes that are left.
use gtest.Common.{
  ℕ, ◌^◌, [], ◌∷◌, ◌++◌, Option, none, some, ltb, if◌then◌else◌, Bytes, length, take, drop, ℤ, pos,
  negsuc, Result, ok, err,
}
use gtest.Common.Texts.{cut, trim_newlines}

-- `read_failed` is any error of the connection or its end, `make_panic` the panic of `make`, and
-- `stuck` no Go value: a loop ran out of fuel.
pub data HttpError : Type 0 where
  read_failed bad_request_line bad_status_line bad_status bad_content_length bad_chunk_size :
      HttpError
  gzip_failed gunzip_failed bad_hex make_panic stuck : HttpError

abbrev pub Reader {ℓ} : Type ℓ → Type ℓ
Reader A = Bytes → Result HttpError A × Bytes

abbrev pub pure {ℓ} : {A : Type ℓ} → A → Reader A
pure a r = (ok a, r)

abbrev pub fail {ℓ} : {A : Type ℓ} → HttpError → Reader A
fail e r = (err e, r)

abbrev pub followed {ℓ κ} :
    {A : Type ℓ} {B : Type κ}
    → (A → Reader B)
    → Result HttpError A × Bytes
    → Result HttpError B × Bytes
followed f (ok a, rest) = f a rest
followed f (err e, rest) = (err e, rest)

infixl 1 ◌>>=◌ ◌>>◌
abbrev pub ◌>>=◌ {ℓ κ} : {A : Type ℓ} {B : Type κ} → Reader A → (A → Reader B) → Reader B
(p >>= f) r = followed f (p r)

abbrev pub ◌>>◌ {ℓ κ} : {A : Type ℓ} {B : Type κ} → Reader A → Reader B → Reader B
p >> q = p >>= λ _. q

-- `strconv` and its like: no value is an error.
abbrev pub or_fail {ℓ} : {A : Type ℓ} → HttpError → Option A → Reader A
or_fail e none = fail e
or_fail e (some a) = pure a

-- `ReadString('\n')`, which keeps nothing back where the input ends first.
abbrev pub line_of : Option (Bytes × Bytes) → Result HttpError Bytes × Bytes
line_of none = (err read_failed, [])
line_of (some (line, rest)) = (ok (trim_newlines (line ++ (b'\n' ∷ []))), rest)

unfoldable pub read_line : Reader Bytes
read_line r = line_of (cut b'\n' r)

-- The longest slice of bytes that Go allocates on a 64-bit system.
abbrev pub max_alloc : ℕ
max_alloc = 2 ^ 48

-- `make` and `io.ReadFull`
unfoldable pub read_bytes : ℤ → Reader Bytes
read_bytes (negsuc n) r = (err make_panic, r)
read_bytes (pos n) r =
    if ltb max_alloc n
    then (err make_panic, r)
    else if ltb (length r) n
    then (err read_failed, [])
    else (ok (take n r), drop n r)
