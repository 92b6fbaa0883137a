-- ===== src/Http2/Handler/Reading.antt =====
-- What the option loops of pkg/http2/handler.go read.
use gtest.Common.{
  ℕ, zero, suc, List, [], ◌∷◌, Option, none, some, Bytes, Result, ok, err, ◌>>=◌, All, Bool-cases,
  inl, inr,
}
use gtest.Common.Maps.{lookup, bytes_key, number_key}
use gtest.Http2.Handler.{HandlerError}
use gtest.Http2.Handler.Options.{
  Action, flag, one, four, five, act, act_or_other, counted, read_from, read_args,
}

-- What holds of an answer, where there is one.
abbrev pub Good {ℓ κ} : {O : Type ℓ} → (O → Type κ) → Result HandlerError O → Type κ
Good P (ok o) = P o
Good P (err e) = Unit

-- An option keeps a property of what is read.
abbrev pub Keeps : {O : Type 0} → (O → Type 0) → Action O → Type 0
Keeps {O} P (flag f) = (o : O) → P o → P (f o)
Keeps {O} P (one f) = (o : O) (a : Bytes) → P o → Good P (f o a)
Keeps {O} P (four f) = (o : O) (a b c d : Bytes) → P o → Good P (f o a b c d)
Keeps {O} P (five f) = (o : O) (a b c d e : Bytes) → P o → Good P (f o a b c d e)

module _ {O : Type 0} (P : O → Type 0) where
  abbrev KeepsIf : Option (Action O) → Type 0
  KeepsIf none = Unit
  KeepsIf (some x) = Keeps P x

  lookup-KeepsIf :
      (a : Bytes) (actions : List (Bytes × Action O))
      → All (λ p. Keeps P p.1) actions
      → KeepsIf (lookup a actions)
  unfolding lookup
  lookup-KeepsIf a [] h = tt
  lookup-KeepsIf a ((n, x) ∷ actions) (k, h) = elim (Bool-cases (bytes_key.same n a)) [
    | inl e ↦ rw e k
    | inr e ↦ rw e (lookup-KeepsIf a actions h)
  ]

  counted-Good :
      (n : ℕ) (r : Result HandlerError O) → Good P r → Good (λ (p : O × ℕ). P p.0) (counted n r)
  counted-Good n (ok o) h = h
  counted-Good n (err e) h = tt

  act-Good :
      (x : Action O) (o : O) (args : List Bytes)
      → Keeps P x
      → P o
      → Good (λ (p : O × ℕ). P p.0) (act x o args)
  unfolding act
  act-Good (flag f) o args k h = k o h
  act-Good (one f) o [] k h = tt
  act-Good (one f) o (a ∷ args) k h = counted-Good 1 (f o a) (k o a h)
  act-Good (four f) o [] k h = tt
  act-Good (four f) o (a ∷ []) k h = tt
  act-Good (four f) o (a ∷ b ∷ []) k h = tt
  act-Good (four f) o (a ∷ b ∷ c ∷ []) k h = tt
  act-Good (four f) o (a ∷ b ∷ c ∷ d ∷ args) k h = counted-Good 4 (f o a b c d) (k o a b c d h)
  act-Good (five f) o [] k h = tt
  act-Good (five f) o (a ∷ []) k h = tt
  act-Good (five f) o (a ∷ b ∷ []) k h = tt
  act-Good (five f) o (a ∷ b ∷ c ∷ []) k h = tt
  act-Good (five f) o (a ∷ b ∷ c ∷ d ∷ []) k h = tt
  act-Good (five f) o (a ∷ b ∷ c ∷ d ∷ e ∷ args) k h =
      counted-Good 5 (f o a b c d e) (k o a b c d e h)

  act_or_other-Good :
      (other : O → Bytes → O) (x : Option (Action O)) (o : O) (a : Bytes) (args : List Bytes)
      → ((o : O) (a : Bytes) → P o → P (other o a))
      → KeepsIf x
      → P o
      → Good (λ (p : O × ℕ). P p.0) (act_or_other other x o a args)
  act_or_other-Good other none o a args k u h = k o a h
  act_or_other-Good other (some x) o a args k u h = act-Good x o args u h

  bind-Good :
      (r : Result HandlerError (O × ℕ)) (f : O × ℕ → Result HandlerError O)
      → Good (λ (p : O × ℕ). P p.0) r
      → ((p : O × ℕ) → P p.0 → Good P (f p))
      → Good P (r >>= f)
  bind-Good (ok p) f h k = k p h
  bind-Good (err e) f h k = tt

  read_from-Good :
      (actions : List (Bytes × Action O)) (other : O → Bytes → O) (o : O) (skip : ℕ)
      (args : List Bytes)
      → All (λ p. Keeps P p.1) actions
      → ((o : O) (a : Bytes) → P o → P (other o a))
      → P o
      → Good P (read_from actions other o skip args)
  unfolding read_from
  read_from-Good actions other o skip [] h k p = p
  read_from-Good actions other o (suc n) (a ∷ args) h k p =
      read_from-Good actions other o n args h k p
  read_from-Good actions other o zero (a ∷ args) h k p =
      bind-Good (act_or_other other (lookup a actions) o a args)
        (λ r. read_from actions other r.0 r.1 args)
        (act_or_other-Good other (lookup a actions) o a args k (lookup-KeepsIf a actions h) p)
        (λ r q. read_from-Good actions other r.0 r.1 args h k q)

  -- What every option of a table keeps, and every other argument, holds of what is read.
  pub read_args-Good :
      (actions : List (Bytes × Action O)) (other : O → Bytes → O) (o : O) (args : List Bytes)
      → All (λ p. Keeps P p.1) actions
      → ((o : O) (a : Bytes) → P o → P (other o a))
      → P o
      → Good P (read_args actions other o args)
  unfolding read_args
  read_args-Good actions other o args h k p = read_from-Good actions other o 0 args h k p
