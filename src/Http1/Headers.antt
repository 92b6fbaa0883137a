-- ===== src/Http1/Headers.antt =====
-- Which header `GetRequestHeader` and `GetResponseHeader` of pkg/http1/http.go find.
use gtest.Common.{
  ℕ, ◌≡◌, ◌↔◌, ◌⊎◌, inl, inr, refl, sym, ◌∙◌, ap, subst, Bool-cases, true, false, List, [], ◌∷◌,
  ◌++◌, Option, none, some, ◌==◌, ==_iff, Bytes, bytes_eq, bytes_eq_iff, arith,
}
use gtest.Common.Texts.{cut, cut-append, Lacks, trim_space, to_lower}
use gtest.Http1.{get_header}

-- A header of a name, in any case, with its value: what stands around its first colon, trimmed.
pub record Named (name hdr v : Bytes) : Type 0 where
  pub before : Bytes
  pub behind : Bytes
  pub parts : hdr ≡ before ++ (b':' ∷ behind)
  pub first_colon : Lacks b':' before
  pub same_name : to_lower (trim_space before) ≡ to_lower name
  pub value : v ≡ trim_space behind

-- The value of the first header of a name among headers; the empty text where none has the name.
pub data FirstValue (name : Bytes) : List Bytes → Bytes → Type 0 where
  missing : FirstValue name [] []
  first : {hdr v : Bytes} {hs : List Bytes} → Named name hdr v → FirstValue name (hdr ∷ hs) v
  later :
      {hdr v : Bytes} {hs : List Bytes}
      → ((w : Bytes) → ¬ Named name hdr w)
      → FirstValue name hs v
      → FirstValue name (hdr ∷ hs) v

-- The parts of a text with the byte.
record Parts (sep : ℕ) (s : Bytes) : Type 0 where
  a : Bytes
  b : Bytes
  found : cut sep s ≡ some (a, b)
  parts : s ≡ a ++ (sep ∷ b)
  lacks : Lacks sep a

cut-cases : (sep : ℕ) (s : Bytes) → (cut sep s ≡ none) ⊎ Parts sep s
unfolding cut
cut-cases sep [] = inl refl
cut-cases sep (c ∷ s) = elim (Bool-cases (c == sep)) [
  | inl e ↦ inr (record {
    a = [];
    b = s;
    found = rw e;
    parts = ap (λ x. x ∷ s) ((==_iff c sep).0 e);
    lacks = tt;
  })
  | inr ne ↦ elim (cut-cases sep s) [
    | inl e ↦ inl (rw (ne, e))
    | inr p ↦ inr (record {
      a = c ∷ p.a;
      b = p.b;
      found = rw (ne, p.found);
      parts = ap (◌∷◌ c) p.parts;
      lacks = ((λ k. ground (arith, ne, k)), p.lacks);
    })
  ]
]

Named-cut : {name hdr v : Bytes} (n : Named name hdr v) → cut b':' hdr ≡ some (n.before, n.behind)
Named-cut n = ap (cut b':') n.parts ∙ cut-append b':' n.before n.behind n.first_colon

get_header-Named :
    (name hdr v : Bytes) (hs : List Bytes) → Named name hdr v → get_header (hdr ∷ hs) name ≡ v
unfolding get_header
get_header-Named name hdr v hs n =
    let same : bytes_eq (to_lower (trim_space n.before)) (to_lower name) ≡ true =
      (bytes_eq_iff (to_lower (trim_space n.before)) (to_lower name)).1 n.same_name in
    rw (get_header, Named-cut n, same) (sym n.value)

-- Whether a header has the name, and what that makes of the search.
data Looked (name hdr : Bytes) (hs : List Bytes) : Type 0 where
  is_named : (v : Bytes) → Named name hdr v → Looked name hdr hs
  is_other :
      ((w : Bytes) → ¬ Named name hdr w)
      → get_header (hdr ∷ hs) name ≡ get_header hs name
      → Looked name hdr hs

no_cut : {name hdr : Bytes} → cut b':' hdr ≡ none → (w : Bytes) → ¬ Named name hdr w
no_cut e w n = absurd (let k = Named-cut n in cc)

same_before :
    {a b c d : Bytes} → ◌≡◌ {A = Option (Bytes × Bytes)} (some (a, b)) (some (c, d)) → a ≡ c
same_before e = cc

other_name :
    {name hdr : Bytes} (p : Parts b':' hdr)
    → bytes_eq (to_lower (trim_space p.a)) (to_lower name) ≡ false
    → (w : Bytes) → ¬ Named name hdr w
other_name {name} p ne w n =
    let k : p.a ≡ n.before = same_before (sym p.found ∙ Named-cut n) in
    let same : bytes_eq (to_lower (trim_space p.a)) (to_lower name) ≡ true =
      (bytes_eq_iff (to_lower (trim_space p.a)) (to_lower name)).1
        (ap (λ x. to_lower (trim_space x)) k ∙ n.same_name) in
    absurd cc

look : (name hdr : Bytes) (hs : List Bytes) → Looked name hdr hs
unfolding get_header
look name hdr hs = elim (cut-cases b':' hdr) [
  | inl e ↦ is_other (no_cut e) (rw (get_header, e))
  | inr p ↦ elim (Bool-cases (bytes_eq (to_lower (trim_space p.a)) (to_lower name))) [
    | inl e ↦ is_named (trim_space p.b) (record {
      before = p.a;
      behind = p.b;
      parts = p.parts;
      first_colon = p.lacks;
      same_name = (bytes_eq_iff (to_lower (trim_space p.a)) (to_lower name)).0 e;
      value = refl;
    })
    | inr e ↦ is_other (other_name p e) (rw (get_header, p.found, e))
  ]
]

get_header-FirstValue : (name : Bytes) (hs : List Bytes) → FirstValue name hs (get_header hs name)
get_header-FirstValue name [] = unfold get_header in missing
get_header-FirstValue name (hdr ∷ hs) = elim (look name hdr hs) [
  | is_named v n ↦
      subst (FirstValue name (hdr ∷ hs)) (sym (get_header-Named name hdr v hs n)) (first n)
  | is_other others e ↦
      subst (FirstValue name (hdr ∷ hs)) (sym e) (later others (get_header-FirstValue name hs))
]

get_header_other :
    (name hdr : Bytes) (hs : List Bytes)
    → ((w : Bytes) → ¬ Named name hdr w)
    → get_header (hdr ∷ hs) name ≡ get_header hs name
get_header_other name hdr hs others = elim (look name hdr hs) [
  | is_named v n ↦ absurd (others v n)
  | is_other _ e ↦ e
]

FirstValue-get_header :
    {name v : Bytes} {hs : List Bytes} → FirstValue name hs v → get_header hs name ≡ v
FirstValue-get_header missing = unfold get_header in refl
FirstValue-get_header {name} (first {hdr} {v} {hs} n) = get_header-Named name hdr v hs n
FirstValue-get_header {name} (later {hdr} {v} {hs} others f) =
    get_header_other name hdr hs others ∙ FirstValue-get_header f

-- What the search answers is the value of the first header of the name.
pub get_header_iff :
    (name v : Bytes) (hs : List Bytes) → (get_header hs name ≡ v) ↔ FirstValue name hs v
get_header_iff name v hs =
    ((λ e. subst (FirstValue name hs) e (get_header-FirstValue name hs)), FirstValue-get_header)
