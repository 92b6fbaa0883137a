-- ===== src/Http2/Handler/Options.antt =====
-- The loops over the options of a command in pkg/http2/handler.go.
use gtest.Common.{ℕ, zero, suc, List, [], ◌∷◌, Option, none, some, Bytes, Result, ok, err, ◌>>=◌}
use gtest.Common.Maps.{lookup, bytes_key}
use gtest.Http2.Handler.{HandlerError, missing_value, bad_number}

-- One `case` of the switch: what it does with the arguments behind the option.
pub data Action (O : Type 0) : Type 0 where
  flag : (O → O) → Action O
  one : (O → Bytes → Result HandlerError O) → Action O
  four : (O → Bytes → Bytes → Bytes → Bytes → Result HandlerError O) → Action O
  five : (O → Bytes → Bytes → Bytes → Bytes → Bytes → Result HandlerError O) → Action O

module _ {O : Type 0} where
  -- How many arguments were taken.
  abbrev pub counted : ℕ → Result HandlerError O → Result HandlerError (O × ℕ)
  counted n (ok o) = ok (o, n)
  counted n (err e) = err e

  unfoldable pub act : Action O → O → List Bytes → Result HandlerError (O × ℕ)
  act (flag f) o args = ok (f o, 0)
  act (one f) o (a ∷ args) = counted 1 (f o a)
  act (four f) o (a ∷ b ∷ c ∷ d ∷ args) = counted 4 (f o a b c d)
  act (five f) o (a ∷ b ∷ c ∷ d ∷ e ∷ args) = counted 5 (f o a b c d e)
  act _ o _ = err missing_value

-- What an argument does that is no option is `other`.
abbrev pub act_or_other :
    {O : Type 0}
    → (O → Bytes → O)
    → Option (Action O)
    → O
    → Bytes
    → List Bytes
    → Result HandlerError (O × ℕ)
act_or_other other none o a args = ok (other o a, 0)
act_or_other other (some x) o a args = act x o args

module _ {O : Type 0} (actions : List (Bytes × Action O)) (other : O → Bytes → O) where
  -- `skip` is how far `i` was moved on by the last case.
  unfoldable pub read_from : O → (skip : ℕ) → List Bytes → Result HandlerError O
  read_from o skip [] = ok o
  read_from o (suc k) (a ∷ args) = read_from o k args
  read_from o zero (a ∷ args) =
      act_or_other other (lookup a actions) o a args >>= λ r. read_from r.0 r.1 args

  unfoldable pub read_args : O → List Bytes → Result HandlerError O
  unfolding read_from act
  read_args o args = read_from o 0 args

-- An argument that no case is for is skipped.
abbrev pub ignored {ℓ} : {O : Type ℓ} → O → Bytes → O
ignored o a = o

abbrev pub or_number {ℓ} : {A : Type ℓ} → Option A → Result HandlerError A
or_number none = err bad_number
or_number (some n) = ok n
