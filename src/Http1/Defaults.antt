-- ===== src/Http1/Defaults.antt =====
-- The headers that pkg/http1 adds to a message say nothing of the length of its body.
use gtest.Common.{
  ℕ, suc, ◌≡◌, ◌≢◌, refl, Bool, true, false, not, ◌&&◌, [], ◌∷◌, Option, none, some, Bytes, codes,
  bytes_eq, bytes_eq_iff, length, All, ℤ, Result, ok, err, ltb, Bool-cases, inl, inr, arith,
}
use gtest.Common.Maps.{lookup, insert, bytes_key}
use gtest.Common.Texts.{cut, cut-Lacks, trim_newlines, trim_space, trim_front, to_lower}
use gtest.Http1.{Http}
use gtest.Http1.Input.{HttpError}
use gtest.Http1.Send.{
  Headers, TxReqOptions, TxRespOptions, resp_defaults, default_to, or_present, add_default, encoded,
  prepare_body, proto_of, req_defaults,
}
use gtest.Http1.Lines.{IsLine}
use gtest.Http1.Framing.{IsPlain, content_length_name, transfer_encoding_name}

insert-All :
    (P : Bytes × Bytes → Type 0) (n v : Bytes) (m : Headers)
    → P (n, v)
    → All P m
    → All P (insert n v m)
unfolding insert
insert-All P n v [] p h = (p, tt)
insert-All P n v ((j, w) ∷ m) p (q, h) = elim (Bool-cases (bytes_eq j n)) [
  | inl e ↦ rw e (p, h)
  | inr e ↦ rw e (q, insert-All P n v m p h)
]

pub add_default-All :
    (P : Bytes × Bytes → Type 0) (wanted : Bool) (n v : Bytes) (m : Headers)
    → P (n, v)
    → All P m
    → All P (add_default wanted n v m)
add_default-All P false n v m p h = h
add_default-All P true n v m p h = go (lookup n m)
  where
    go : (o : Option Bytes) → All P (or_present (insert n v m) o m)
    go none = insert-All P n v m p h
    go (some w) = h

differ : (a b : Bytes) → bytes_eq a b ≡ false → a ≢ b
differ a b h e = let eq = (bytes_eq_iff a b).1 e in cc

-- The names of the defaults say nothing of the length.
pub default-IsPlain :
    (n v : Bytes)
    → cut b':' n ≡ none
    → cut b'\n' n ≡ none
    → IsLine v
    → bytes_eq (to_lower (trim_space n)) (to_lower content_length_name) ≡ false
    → bytes_eq (to_lower (trim_space n)) (to_lower transfer_encoding_name) ≡ false
    → IsPlain (n, v)
default-IsPlain n v a b l p q = record {
  no_colon = cut-Lacks b':' n a;
  name_line = cut-Lacks b'\n' n b;
  value_line = l.one;
  value_whole = l.whole;
  no_length = differ (to_lower (trim_space n)) (to_lower content_length_name) p;
  no_encoding = differ (to_lower (trim_space n)) (to_lower transfer_encoding_name) q;
}

-- The value of a default is one line.
pub literal-IsLine : (v : Bytes) → cut b'\n' v ≡ none → trim_newlines v ≡ v → IsLine v
literal-IsLine v h w = record { one = cut-Lacks b'\n' v h; whole = w }

pub agent-IsLine : (name : Bytes) → IsLine name → IsLine (default_to (codes "gvtest") name)
unfolding cut trim_newlines
agent-IsLine [] h = literal-IsLine (codes "gvtest") refl refl
agent-IsLine (c ∷ cs) h = h

pub host-IsPlain : IsPlain (codes "Host", codes "localhost")
unfolding cut trim_newlines trim_space trim_front to_lower bytes_eq
host-IsPlain =
    default-IsPlain (codes "Host") (codes "localhost") refl refl
      (literal-IsLine (codes "localhost") refl refl) refl refl

pub agent-IsPlain : (v : Bytes) → IsLine v → IsPlain (codes "User-Agent", v)
unfolding cut trim_newlines trim_space trim_front to_lower bytes_eq
agent-IsPlain v h = default-IsPlain (codes "User-Agent") v refl refl h refl refl

pub server-IsPlain : (v : Bytes) → IsLine v → IsPlain (codes "Server", v)
unfolding cut trim_newlines trim_space trim_front to_lower bytes_eq
server-IsPlain v h = default-IsPlain (codes "Server") v refl refl h refl refl

pub gzip-IsPlain : IsPlain (codes "Content-Encoding", codes "gzip")
unfolding cut trim_newlines trim_space trim_front to_lower bytes_eq
gzip-IsPlain =
    default-IsPlain (codes "Content-Encoding") (codes "gzip") refl refl
      (literal-IsLine (codes "gzip") refl refl) refl refl

abbrev pub headers_of : Result HttpError (Bytes × Headers) → Headers
headers_of (ok (body, m)) = m
headers_of (err e) = []

encoded-plain :
    (m : Headers) (z : Option Bytes) → All IsPlain m → All IsPlain (headers_of (encoded m z))
encoded-plain m none h = tt
encoded-plain m (some z) h =
    insert-All IsPlain (codes "Content-Encoding") (codes "gzip") m gzip-IsPlain h

-- Compression adds a header at most.
pub prepare_body-plain :
    (compress : ℤ → Bytes → Option Bytes) (level : ℤ) (gzip : Bool) (body : Bytes) (m : Headers)
    → All IsPlain m
    → All IsPlain (headers_of (prepare_body compress level gzip body m))
unfolding prepare_body
prepare_body-plain compress level gzip body m h = elim (Bool-cases (gzip && ltb 0 (length body))) [
  | inl e ↦ rw e (encoded-plain m (compress level body) h)
  | inr e ↦ rw e h
]

pub req_defaults-plain :
    (h : Http) (opts : TxReqOptions) (m : Headers)
    → IsLine h.name
    → All IsPlain m
    → All IsPlain (req_defaults h opts m)
req_defaults-plain h opts m l p =
    add_default-All IsPlain (not opts.no_user_agent) (codes "User-Agent")
      (default_to (codes "gvtest") h.name) _
      (agent-IsPlain (default_to (codes "gvtest") h.name) (agent-IsLine h.name l))
      (add_default-All IsPlain (not opts.no_host && bytes_eq (proto_of opts) (codes "HTTP/1.1"))
        (codes "Host") (codes "localhost") m host-IsPlain p)

pub resp_defaults-plain :
    (h : Http) (opts : TxRespOptions) (m : Headers)
    → IsLine h.name
    → All IsPlain m
    → All IsPlain (resp_defaults h opts m)
resp_defaults-plain h opts m l p =
    add_default-All IsPlain (not opts.no_server) (codes "Server")
      (default_to (codes "gvtest") h.name) m
      (server-IsPlain (default_to (codes "gvtest") h.name) (agent-IsLine h.name l)) p

pub ok_inj : {A : Type 0} (a b : A) → ◌≡◌ {A = Result HttpError A} (ok a) (ok b) → a ≡ b
ok_inj a b e = cc

pub positive_len : (n : ℕ) → ltb 0 (suc n) ≡ true
positive_len n = ground arith
