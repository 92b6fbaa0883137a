-- ===== src/Util/Comments.antt =====
-- `StripComments` of pkg/util/string.go.
use gtest.Common.{
  ℕ, ◌≡◌, ◌∙◌, refl, ap, ◌⊎◌, inl, inr, Bool, true, false, not, ◌&&◌, [], ◌∷◌, ◌++◌, ◌==◌,
  if◌then◌else◌, Bool-cases, Bytes, arith,
}
use gtest.Util.{strip_from, strip_comments}

-- Whether a text ends inside a quote, and whether it ends behind a backslash that escapes.
unfoldable pub scanned : Bool → Bool → Bytes → Bool × Bool
scanned in_quote escape [] = (in_quote, escape)
scanned in_quote escape (c ∷ cs) =
    if escape
    then scanned in_quote false cs
    else if c == b'\\'
    then scanned in_quote true cs
    else scanned (if c == b'"' then not in_quote else in_quote) false cs

strip_from-strip_from :
    (q e : Bool) (s : Bytes) → strip_from q e (strip_from q e s) ≡ strip_from q e s
unfolding strip_from
strip_from-strip_from q e [] = refl
strip_from-strip_from q e (c ∷ cs) = ground (
  arith,
  strip_from-strip_from q false cs,
  strip_from-strip_from q true cs,
  strip_from-strip_from (not q) false cs,
)

-- What is cut off: nothing, or a text from a bare `#` on.
abbrev pub IsCut : Bool → Bool → Bytes → Type 0
IsCut q e s =
    (strip_from q e s ≡ s)
    ⊎ ((t : Bytes) × (s ≡ strip_from q e s ++ (b'#' ∷ t))
        × (scanned q e (strip_from q e s) ≡ (false, false)))

-- One byte that is kept.
kept-IsCut :
    (q e q' e' : Bool) (c : ℕ) (cs : Bytes)
    → strip_from q e (c ∷ cs) ≡ c ∷ strip_from q' e' cs
    → ((y : Bytes) → scanned q e (c ∷ y) ≡ scanned q' e' y)
    → IsCut q' e' cs
    → IsCut q e (c ∷ cs)
kept-IsCut q e q' e' c cs keep scan (inl all) = inl (keep ∙ ap (◌∷◌ c) all)
kept-IsCut q e q' e' c cs keep scan (inr (t, split, bare)) =
    inr (t, ap (◌∷◌ c) split ∙ rw keep refl, rw keep (scan (strip_from q' e' cs) ∙ bare))

bare_hash : (c : ℕ) (q : Bool) → ((c == b'#') && not q) ≡ true → (c ≡ b'#') × (q ≡ false)
bare_hash c q h = ground arith

strip_from-IsCut : (q e : Bool) (s : Bytes) → IsCut q e s
unfolding strip_from scanned
strip_from-IsCut q e [] = inl refl
strip_from-IsCut q true (c ∷ cs) =
    kept-IsCut q true q false c cs refl (λ y. refl) (strip_from-IsCut q false cs)
strip_from-IsCut q false (c ∷ cs) = elim (Bool-cases (c == b'\\')) [
  | inl h ↦ kept-IsCut q false q true c cs (rw h refl) (λ y. rw h refl) (strip_from-IsCut q true cs)
  | inr h ↦ elim (Bool-cases (c == b'"')) [
    | inl k ↦
        kept-IsCut q false (not q) false c cs (rw (h, k) refl) (λ y. rw (h, k) refl)
          (strip_from-IsCut (not q) false cs)
    | inr k ↦ elim (Bool-cases ((c == b'#') && not q)) [
      | inl m ↦
          let (hash, outside) = bare_hash c q m in
          inr
            (cs, rw (h, k, m) (ap (λ d. d ∷ cs) hash), rw (h, k, m) (ap (λ b. (b, false)) outside))
      | inr m ↦
          kept-IsCut q false q false c cs (rw (h, k, m) refl) (λ y. rw (h, k) refl)
            (strip_from-IsCut q false cs)
    ]
  ]
]

-- `StripComments` of what it answers changes nothing more; and it answers the line itself, or what
-- stands before a `#` that is neither inside a quote nor escaped.
pub strip_comments-cut :
    (line : Bytes)
    → (strip_comments (strip_comments line) ≡ strip_comments line)
      × ((strip_comments line ≡ line)
          ⊎ ((t : Bytes) × (line ≡ strip_comments line ++ (b'#' ∷ t))
              × (scanned false false (strip_comments line) ≡ (false, false))))
unfolding strip_comments
strip_comments-cut line =
    (strip_from-strip_from false false line, strip_from-IsCut false false line)
