-- ===== src/Tests/Expect.antt =====
-- pkg/http1/expect.go at two numbers and at a header with dots in its name.
use gtest.Common.{ℕ, ◌≡◌, ◌↔◌, refl, [], ◌∷◌, ◌++◌, none, some, codes, bytes_eq, ltb, leb, pos, ok}
use gtest.Common.Numerals.{atoi, parse_int, parse_digits, scan}
use gtest.Http1.{Http, new_http}
use gtest.Http1.Expect.{Library, expect}
use gtest.Http1.Headers.{FirstValue}
use gtest.Http1.Comparing.{wanted, expect-header}

-- Decimal integers, no floats, and patterns that match themselves.
abbrev library : Library
library = record {
  Float = ℕ;
  parse_int = atoi;
  parse_float = λ s. none;
  float_lt = ltb;
  float_gt = λ a b. ltb b a;
  float_le = leb;
  float_ge = λ a b. leb b a;
  match_string = λ p s. some (bytes_eq p s);
}

three : atoi (codes "3") ≡ some (pos 3)
unfolding atoi parse_int parse_digits scan
three = refl

-- A session with a header.
abbrev session : Http
session = record new_http { req_headers = codes "x.y: 7" ∷ [] }

expect-header_example :
    ((expect library session (codes "req.http." ++ codes "X.Y") (codes "==") (codes "7") ≡ ok tt)
      ↔ FirstValue (codes "X.Y") session.req_headers (wanted (codes "7")))
    × ((expect library session (codes "resp.http." ++ codes "X.Y") (codes "==") (codes "7") ≡ ok tt)
        ↔ FirstValue (codes "X.Y") session.resp_headers (wanted (codes "7")))
expect-header_example = expect-header library session (codes "X.Y") (codes "7")
