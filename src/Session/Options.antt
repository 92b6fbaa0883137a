-- ===== src/Session/Options.antt =====
-- The options of pkg/session/session.go.
use gtest.Common.{
  ℕ, zero, suc, ◌≤◌, ◌≡◌, refl, Bool-cases, inl, inr, List, [], ◌∷◌, Option, none, some, Bytes,
  codes, bytes_eq, length, ℤ, pos, negsuc, Result, ok, err, arith,
}
use gtest.Common.Numerals.{atoi}
use gtest.Session.{Session, SessionError, parse_option, with_value, set_repeat, set_rcv_buf}

-- At least one round.
abbrev pub IsRunnable : Session → Type 0
IsRunnable s = (n : ℕ) × (s.repeat ≡ pos (suc n))

-- A session that can run, and no more arguments consumed than there are.
abbrev pub IsParsed : ℕ → Result SessionError (Session × ℕ) → Type 0
IsParsed given (ok (s, used)) = IsRunnable s × (used ≤ given)
IsParsed given (err e) = Unit

set_repeat-IsParsed : (s : Session) (n : ℕ) (v : Option ℤ) → 2 ≤ n → IsParsed n (set_repeat s v)
set_repeat-IsParsed s n none h = tt
set_repeat-IsParsed s n (some (negsuc v)) h = tt
set_repeat-IsParsed s n (some (pos zero)) h = tt
set_repeat-IsParsed s n (some (pos (suc v))) h = ((v, refl), h)

set_rcv_buf-IsParsed :
    (s : Session) (n : ℕ) (v : Option ℤ) → 2 ≤ n → IsRunnable s → IsParsed n (set_rcv_buf s v)
set_rcv_buf-IsParsed s n none h r = tt
set_rcv_buf-IsParsed s n (some v) h r = (r, h)

with_value-IsParsed :
    (set : Session → Option ℤ → Result SessionError (Session × ℕ)) (s : Session) (args : List Bytes)
    → ((n : ℕ) (v : Option ℤ) → 2 ≤ n → IsParsed n (set s v))
    → IsParsed (suc (length args)) (with_value set s args)
with_value-IsParsed set s [] h = tt
with_value-IsParsed set s (v ∷ vs) h = h (suc (suc (length vs))) (atoi v) (omega arith)

-- Whatever the arguments are, a session of at least one round stays one of at least one, and no more
-- arguments are consumed than there are; or ParseOption fails.
pub parse_option-IsParsed :
    (s : Session) (args : List Bytes) → IsRunnable s → IsParsed (length args) (parse_option s args)
unfolding parse_option
parse_option-IsParsed s [] r = (r, omega arith)
parse_option-IsParsed s (a ∷ args) r = elim (Bool-cases (bytes_eq a (codes "-rcvbuf"))) [
  | inl e ↦ rw e (with_value-IsParsed set_rcv_buf s args (λ n v h. set_rcv_buf-IsParsed s n v h r))
  | inr e ↦ elim (Bool-cases (bytes_eq a (codes "-repeat"))) [
    | inl k ↦
        rw (e, k) (with_value-IsParsed set_repeat s args (λ n v h. set_repeat-IsParsed s n v h))
    | inr k ↦ elim (Bool-cases (bytes_eq a (codes "-keepalive"))) [
      | inl l ↦ rw (e, k, l) (r, omega arith)
      | inr l ↦ rw (e, k, l) (r, omega arith)
    ]
  ]
]
