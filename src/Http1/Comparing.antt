-- ===== src/Http1/Comparing.antt =====
-- What the operators and the header fields of pkg/http1/expect.go promise.
use gtest.Common.{
  ◌≡◌, ◌≢◌, ◌↔◌, refl, sym, ◌∙◌, Bool, true, false, not, [], ◌++◌, Option, none, some,
  if◌then◌else◌, Bytes, codes, bytes_eq, bytes_eq_iff, bytes_eq-false, Bool-cases, inl, inr, ℤ,
  Result, ok, err,
}
use gtest.Common.Maps.{lookup, bytes_key}
use gtest.Common.Texts.{cut}
use gtest.Http1.{Http, get_request_header, get_response_header}
use gtest.Http1.Headers.{FirstValue, get_header_iff}
use gtest.Http1.Expect.{
  ExpectError, bad_pattern, not_equal, int_order, float_result, get_field, get_request_field,
  get_response_field, Library, compare, compare_numeric, expect, int_less, is_undef, or_error,
  negated, both, holds_or_failed,
}

-- The other answer, or the same error.
abbrev pub opposite : Result ExpectError Bool → Result ExpectError Bool
opposite (ok b) = ok (not b)
opposite (err e) = err e

-- No answer at all.
abbrev pub Fails : Result ExpectError Bool → Type 0
Fails (ok b) = ⊥
Fails (err e) = Unit

module _ (lib : Library) (actual expected : Bytes) where
  or_error-negated :
      (e : ExpectError) (o : Option Bool) → or_error e (negated o) ≡ opposite (or_error e o)
  or_error-negated e none = refl
  or_error-negated e (some b) = refl

  compare-not_equal :
      compare lib actual (codes "!=") expected ≡ opposite (compare lib actual (codes "==") expected)
  unfolding compare lookup bytes_eq
  compare-not_equal = elim (Bool-cases (is_undef expected)) [
    | inl e ↦ rw e refl
    | inr e ↦ rw e refl
  ]

  compare-not_matching :
      compare lib actual (codes "!~") expected ≡ opposite (compare lib actual (codes "~") expected)
  unfolding compare lookup bytes_eq
  compare-not_matching = or_error-negated bad_pattern (lib.match_string expected actual)

  no_int : (o p : Option ℤ) → both (int_order not_equal) o p ≡ none
  no_int none p = refl
  no_int (some a) none = refl
  no_int (some a) (some b) = refl

  no_float : (o p : Option lib.Float) → Fails (float_result lib not_equal o p)
  no_float none p = tt
  no_float (some a) none = tt
  no_float (some a) (some b) = tt

  compare-number_not_equal :
      expected ≢ codes "<undef>" → Fails (compare lib actual (codes "-ne") expected)
  unfolding compare compare_numeric lookup bytes_eq
  compare-number_not_equal h =
      rw
        (
          bytes_eq-false expected (codes "<undef>") h,
          no_int (lib.parse_int actual) (lib.parse_int expected),
        )
        (no_float (lib.parse_float actual) (lib.parse_float expected))

-- On two texts that ParseInt reads, the second not `<undef>`, the operators of `expect` come in
-- opposites: `!=` answers the other way than `==`, `!~` the other way than `~` or fails as it does, `>=`
-- the other way than `<`, which compares the numbers, and `<=` the other way than `>`. But `-ne` has no
-- answer.
pub compare-opposite :
    (lib : Library) (actual expected : Bytes) (m n : ℤ)
    → lib.parse_int actual ≡ some m
    → lib.parse_int expected ≡ some n
    → expected ≢ codes "<undef>"
    → (compare lib actual (codes "!=") expected
        ≡ opposite (compare lib actual (codes "==") expected))
      × (compare lib actual (codes "!~") expected
          ≡ opposite (compare lib actual (codes "~") expected))
      × (compare lib actual (codes "<") expected ≡ ok (int_less m n))
      × (compare lib actual (codes ">=") expected
          ≡ opposite (compare lib actual (codes "<") expected))
      × (compare lib actual (codes ">") expected ≡ ok (int_less n m))
      × (compare lib actual (codes "<=") expected
          ≡ opposite (compare lib actual (codes ">") expected))
      × Fails (compare lib actual (codes "-ne") expected)
unfolding compare compare_numeric lookup bytes_eq
compare-opposite lib actual expected m n h k ne = (
  compare-not_equal lib actual expected,
  compare-not_matching lib actual expected,
  rw (h, k) refl,
  rw (h, k) refl,
  rw (h, k) refl,
  rw (h, k) refl,
  compare-number_not_equal lib actual expected ne,
)

get_field-header :
    (h : Http) (name : Bytes)
    → (get_field h (codes "req.http." ++ name) ≡ ok (get_request_header h name))
      × (get_field h (codes "resp.http." ++ name) ≡ ok (get_response_header h name))
unfolding get_field get_request_field get_response_field cut bytes_eq
get_field-header h name = (refl, refl)

compare-equal :
    (lib : Library) (actual expected : Bytes)
    → compare lib actual (codes "==") expected
      ≡ ok (bytes_eq actual (if is_undef expected then [] else expected))
unfolding compare lookup bytes_eq
compare-equal lib actual expected = elim (Bool-cases (is_undef expected)) [
  | inl e ↦ rw e refl
  | inr e ↦ rw e refl
]

holds_lem : (b : Bool) → (holds_or_failed b ≡ ok tt) ↔ (b ≡ true)
holds_lem true = ((λ e. refl), (λ e. refl))
holds_lem false = ((λ e. absurd cc), (λ e. absurd cc))

expect-passes :
    (lib : Library) (h : Http) (field expected actual : Bytes)
    → get_field h field ≡ ok actual
    → (expect lib h field (codes "==") expected ≡ ok tt)
      ↔ (actual ≡ (if is_undef expected then [] else expected))
unfolding expect
expect-passes lib h field expected actual e =
    let wanted = if is_undef expected then [] else expected in
    let answer : expect lib h field (codes "==") expected
        ≡ holds_or_failed (bytes_eq actual wanted) =
      rw (e, compare-equal lib actual expected) refl in
    (
      (λ p.
          (bytes_eq_iff actual wanted).0 ((holds_lem (bytes_eq actual wanted)).0 (sym answer ∙ p))),
      (λ p. answer ∙ (holds_lem (bytes_eq actual wanted)).1 ((bytes_eq_iff actual wanted).1 p)),
    )

-- What a header is expected to be.
abbrev pub wanted : Bytes → Bytes
wanted expected = if is_undef expected then [] else expected

request_header_iff :
    (h : Http) (name v : Bytes) → (get_request_header h name ≡ v) ↔ FirstValue name h.req_headers v
unfolding get_request_header
request_header_iff h name v = get_header_iff name v h.req_headers

response_header_iff :
    (h : Http) (name v : Bytes)
    → (get_response_header h name ≡ v) ↔ FirstValue name h.resp_headers v
unfolding get_response_header
response_header_iff h name v = get_header_iff name v h.resp_headers

-- `expect` of a header of the request or of the response, whatever dots are in its name, passes exactly
-- when the first header of that name among the request's or the response's, in any case of its letters,
-- has the expected value, and passes where no header has the name exactly when the expected value is
-- empty; `<undef>` stands for the empty value.
pub expect-header :
    (lib : Library) (h : Http) (name expected : Bytes)
    → ((expect lib h (codes "req.http." ++ name) (codes "==") expected ≡ ok tt)
        ↔ FirstValue name h.req_headers (wanted expected))
      × ((expect lib h (codes "resp.http." ++ name) (codes "==") expected ≡ ok tt)
          ↔ FirstValue name h.resp_headers (wanted expected))
expect-header lib h name expected =
    let req =
      expect-passes lib h (codes "req.http." ++ name) expected (get_request_header h name)
        (get_field-header h name).0 in
    let resp =
      expect-passes lib h (codes "resp.http." ++ name) expected (get_response_header h name)
        (get_field-header h name).1 in
    let in_req = request_header_iff h name (wanted expected) in
    let in_resp = response_header_iff h name (wanted expected) in
    (
      ((λ p. in_req.0 (req.0 p)), (λ f. req.1 (in_req.1 f))),
      ((λ p. in_resp.0 (resp.0 p)), (λ f. resp.1 (in_resp.1 f))),
    )
