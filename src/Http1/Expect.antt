-- ===== src/Http1/Expect.antt =====
-- `Expect` of pkg/http1/expect.go: fields of a session and the operators that compare them.
use gtest.Common.{
  Bool, true, false, not, List, [], ◌∷◌, Option, none, some, ltb, ◌==◌, if◌then◌else◌, Bytes, codes,
  bytes_eq, ℤ, pos, negsuc, Result, ok, err, ◌>>=◌,
}
use gtest.Common.Maps.{lookup, bytes_key}
use gtest.Common.Texts.{cut}
use gtest.Common.Numerals.{decimal}
use gtest.Http1.{Http, get_request_header, get_response_header}
use gtest.Http1.Send.{format_int}

pub data ExpectError : Type 0 where
  invalid_field unknown_category unknown_field missing_header : ExpectError
  bad_pattern not_numeric unknown_numeric unknown_operator expect_failed : ExpectError

-- `SplitN(s, ".", 2)` behind the first dot.
abbrev pub at_dot : Bytes → Option (Bytes × Bytes) → Bytes × Option Bytes
at_dot s none = (s, none)
at_dot s (some (a, b)) = (a, some b)

abbrev pub header_or_missing : (Bytes → Bytes) → Option Bytes → Result ExpectError Bytes
header_or_missing get none = err missing_header
header_or_missing get (some name) = ok (get name)

unfoldable pub get_request_field : Http → Bytes → Option Bytes → Result ExpectError Bytes
unfolding get_request_header
get_request_field h name third =
    if bytes_eq name (codes "method")
    then ok h.method
    else if bytes_eq name (codes "url")
    then ok h.url
    else if bytes_eq name (codes "proto")
    then ok h.proto
    else if bytes_eq name (codes "body")
    then ok h.body
    else if bytes_eq name (codes "bodylen")
    then ok (decimal h.body_len)
    else if bytes_eq name (codes "http")
    then header_or_missing (get_request_header h) third
    else err unknown_field

unfoldable pub get_response_field : Http → Bytes → Option Bytes → Result ExpectError Bytes
unfolding get_response_header
get_response_field h name third =
    if bytes_eq name (codes "status")
    then ok (format_int h.status)
    else if bytes_eq name (codes "reason")
    then ok h.reason
    else if bytes_eq name (codes "proto")
    then ok h.proto
    else if bytes_eq name (codes "body")
    then ok h.body
    else if bytes_eq name (codes "bodylen")
    then ok (decimal h.body_len)
    else if bytes_eq name (codes "http")
    then header_or_missing (get_response_header h) third
    else err unknown_field

abbrev pub category_field : Http → Bytes → Bytes × Option Bytes → Result ExpectError Bytes
category_field h category (name, third) =
    if bytes_eq category (codes "req")
    then get_request_field h name third
    else if bytes_eq category (codes "resp")
    then get_response_field h name third
    else err unknown_category

abbrev pub split_field : Http → Option (Bytes × Bytes) → Result ExpectError Bytes
split_field h none = err invalid_field
split_field h (some (category, rest)) = category_field h category (at_dot rest (cut b'.' rest))

unfoldable pub get_field : Http → Bytes → Result ExpectError Bytes
unfolding cut get_request_field get_response_field
get_field h field = split_field h (cut b'.' field)

pub data Operator : Type 0 where
  equal number_equal not_equal number_not_equal : Operator
  matching not_matching less greater at_most at_least : Operator

abbrev pub operators : List (Bytes × Operator)
operators =
    (codes "==", equal)
    ∷ (codes "-eq", number_equal)
    ∷ (codes "!=", not_equal)
    ∷ (codes "-ne", number_not_equal)
    ∷ (codes "~", matching)
    ∷ (codes "!~", not_matching)
    ∷ (codes "<", less)
    ∷ (codes "-lt", less)
    ∷ (codes ">", greater)
    ∷ (codes "-gt", greater)
    ∷ (codes "<=", at_most)
    ∷ (codes "-le", at_most)
    ∷ (codes ">=", at_least)
    ∷ (codes "-ge", at_least)
    ∷ []

abbrev pub int_less : ℤ → ℤ → Bool
int_less (pos m) (pos n) = ltb m n
int_less (pos m) (negsuc n) = false
int_less (negsuc m) (pos n) = true
int_less (negsuc m) (negsuc n) = ltb n m

abbrev pub int_equal : ℤ → ℤ → Bool
int_equal (pos m) (pos n) = m == n
int_equal (negsuc m) (negsuc n) = m == n
int_equal _ _ = false

-- The order of a kind of numbers by its four tests; any other operator has none.
abbrev pub by_order {ℓ} :
    {A : Type ℓ} → (lt gt le ge : A → A → Bool) → Operator → A → A → Option Bool
by_order lt gt le ge less a b = some (lt a b)
by_order lt gt le ge greater a b = some (gt a b)
by_order lt gt le ge at_most a b = some (le a b)
by_order lt gt le ge at_least a b = some (ge a b)
by_order lt gt le ge _ a b = none

abbrev pub int_order : Operator → ℤ → ℤ → Option Bool
int_order =
    by_order int_less (λ a b. int_less b a) (λ a b. not (int_less b a)) (λ a b. not (int_less a b))

-- `strconv.ParseInt` in base 0, `strconv.ParseFloat` with the tests on floats, and `regexp`: whether a
-- text matches a pattern, and `none` for a pattern that does not compile.
pub record Library : Type 1 where
  pub Float : Type 0
  pub parse_int : Bytes → Option ℤ
  pub parse_float : Bytes → Option Float
  pub float_lt : Float → Float → Bool
  pub float_gt : Float → Float → Bool
  pub float_le : Float → Float → Bool
  pub float_ge : Float → Float → Bool
  pub match_string : Bytes → Bytes → Option Bool

abbrev pub both {ℓ κ} :
    {A : Type ℓ} {B : Type κ} → (A → A → Option B) → Option A → Option A → Option B
both f (some a) (some b) = f a b
both f _ _ = none

abbrev pub or_error {ℓ} : {A : Type ℓ} → ExpectError → Option A → Result ExpectError A
or_error e none = err e
or_error e (some a) = ok a

abbrev pub or_test : Option Bool → Bool → Bool
or_test none b = b
or_test (some a) b = a

abbrev pub negated : Option Bool → Option Bool
negated none = none
negated (some b) = some (not b)

abbrev pub is_undef : Bytes → Bool
is_undef s = bytes_eq s (codes "<undef>")

abbrev pub holds_or_failed : Bool → Result ExpectError (Unit {0})
holds_or_failed true = ok tt
holds_or_failed false = err expect_failed

module _ (lib : Library) where
  abbrev pub float_result : Operator → Option lib.Float → Option lib.Float → Result ExpectError Bool
  float_result op (some a) (some b) =
      or_error unknown_numeric (by_order lib.float_lt lib.float_gt lib.float_le lib.float_ge op a b)
  float_result op _ _ = err not_numeric

  -- Integers first, and floats where that gives no answer.
  abbrev pub int_result : Operator → Bytes → Bytes → Option Bool → Result ExpectError Bool
  int_result op actual expected (some b) = ok b
  int_result op actual expected none =
      float_result op (lib.parse_float actual) (lib.parse_float expected)

  unfoldable pub compare_numeric : Bytes → Operator → Bytes → Result ExpectError Bool
  compare_numeric actual op expected =
      int_result op actual expected
        (both (int_order op) (lib.parse_int actual) (lib.parse_int expected))

  -- `compare` by the operator.
  abbrev pub compare_by : Bytes → Option Operator → Bytes → Result ExpectError Bool
  compare_by actual none expected = err unknown_operator
  compare_by actual (some equal) expected =
      if is_undef expected then ok (bytes_eq actual []) else ok (bytes_eq actual expected)
  compare_by actual (some number_equal) expected =
      if is_undef expected
      then ok (bytes_eq actual [])
      else ok (
          or_test
            (both (λ a b. some (int_equal a b)) (lib.parse_int actual) (lib.parse_int expected))
            (bytes_eq actual expected))
  compare_by actual (some not_equal) expected =
      if is_undef expected
      then ok (not (bytes_eq actual []))
      else ok (not (bytes_eq actual expected))
  compare_by actual (some number_not_equal) expected =
      if is_undef expected
      then ok (not (bytes_eq actual []))
      else compare_numeric actual not_equal expected
  compare_by actual (some matching) expected =
      or_error bad_pattern (lib.match_string expected actual)
  compare_by actual (some not_matching) expected =
      or_error bad_pattern (negated (lib.match_string expected actual))
  compare_by actual (some op) expected = compare_numeric actual op expected

  unfoldable pub compare : Bytes → Bytes → Bytes → Result ExpectError Bool
  unfolding compare_numeric
  compare actual op expected = compare_by actual (lookup op operators) expected

  unfoldable pub expect : Http → Bytes → Bytes → Bytes → Result ExpectError (Unit {0})
  unfolding get_field compare
  expect h field op expected = do
    actual ← get_field h field
    result ← compare actual op expected
    holds_or_failed result
