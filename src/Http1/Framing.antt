-- ===== src/Http1/Framing.antt =====
-- The headers that say how long a body is, as pkg/http1 writes them and as `readBody` takes them.
use gtest.Common.{
  ℕ, suc, ◌<◌, ◌≤◌, ◌^◌, ◌≡◌, ◌≢◌, refl, ap, ◌∙◌, true, false, List, [], ◌∷◌, ◌++◌, append-nil, map,
  some, Bytes, codes, bytes_eq, bytes_eq_iff, bytes_eq-false, length, All, ok, pos, arith,
}
use gtest.Common.Strings.{index, has_prefix}
use gtest.Common.Texts.{
  cut, cut-append, Lacks, trim_space, trim_space-blank, trim_space-words, trim_front, to_lower,
  trim_newlines,
}
use gtest.Common.Numerals.{decimal, decimal-IsWord, numeral-ne-nil, atoi, atoi-decimal}
use gtest.Http1.Input.{max_alloc}
use gtest.Http1.{get_header, content_length, is_chunked, read_body}
use gtest.Http1.Send.{header_line, te_chunked, cl_header, send_chunked}
use gtest.Http1.Chunks.{IsChunk, joined, read_bytes-append, parse_chunked_body-in_chunks}

abbrev pub content_length_name : Bytes
content_length_name = codes "Content-Length"

abbrev pub transfer_encoding_name : Bytes
transfer_encoding_name = codes "Transfer-Encoding"

-- A header of one line that does not say how long the body is.
pub record IsPlain (h : Bytes × Bytes) : Type 0 where
  pub no_colon : Lacks b':' h.0
  pub name_line : Lacks b'\n' h.0
  pub value_line : Lacks b'\n' h.1
  pub value_whole : trim_newlines h.1 ≡ h.1
  pub no_length : to_lower (trim_space h.0) ≢ to_lower content_length_name
  pub no_encoding : to_lower (trim_space h.0) ≢ to_lower transfer_encoding_name

-- A header of another name is passed over.
get_header-other :
    (h : Bytes × Bytes) (hs : List Bytes) (name : Bytes)
    → Lacks b':' h.0
    → to_lower (trim_space h.0) ≢ to_lower name
    → get_header (header_line h ∷ hs) name ≡ get_header hs name
unfolding get_header
get_header-other (n, v) hs name bare ne = rw (
  get_header,
  cut-append b':' n (b' ' ∷ v) bare,
  bytes_eq-false (to_lower (trim_space n)) (to_lower name) ne,
)

get_header-plain :
    (m : List (Bytes × Bytes)) (hs : List Bytes)
    → All IsPlain m
    → (get_header (map header_line m ++ hs) content_length_name ≡ get_header hs content_length_name)
      × (get_header (map header_line m ++ hs) transfer_encoding_name
          ≡ get_header hs transfer_encoding_name)
get_header-plain [] hs h = (refl, refl)
get_header-plain (x ∷ m) hs (p, h) =
    let (one, two) = get_header-plain m hs h in
    (
      get_header-other x (map header_line m ++ hs) content_length_name p.no_colon p.no_length ∙ one,
      get_header-other x (map header_line m ++ hs) transfer_encoding_name p.no_colon p.no_encoding
          ∙ two,
    )

-- A header of the name in front, and one of another name.
get_header-first :
    (hdr n v : Bytes) (hs : List Bytes) (name : Bytes)
    → cut b':' hdr ≡ some (n, v)
    → to_lower (trim_space n) ≡ to_lower name
    → get_header (hdr ∷ hs) name ≡ trim_space v
unfolding get_header
get_header-first hdr n v hs name e k =
    rw (get_header, e, k, (bytes_eq_iff (to_lower name) (to_lower name)).1 refl)

get_header-not_first :
    (hdr n v : Bytes) (hs : List Bytes) (name : Bytes)
    → cut b':' hdr ≡ some (n, v)
    → bytes_eq (to_lower (trim_space n)) (to_lower name) ≡ false
    → get_header (hdr ∷ hs) name ≡ get_header hs name
unfolding get_header
get_header-not_first hdr n v hs name e k = rw (get_header, e, k)

cl_cut : (n : ℕ) → cut b':' (cl_header n) ≡ some (content_length_name, b' ' ∷ decimal n)
unfolding cut
cl_cut n = refl

cl_name :
    (to_lower (trim_space content_length_name) ≡ to_lower content_length_name)
    × (bytes_eq (to_lower (trim_space content_length_name)) (to_lower transfer_encoding_name)
        ≡ false)
unfolding trim_space trim_front to_lower bytes_eq
cl_name = (refl, refl)

cl_value :
    (n : ℕ)
    → (get_header (cl_header n ∷ []) content_length_name ≡ decimal n)
      × (get_header (cl_header n ∷ []) transfer_encoding_name ≡ [])
unfolding get_header
cl_value n = (
  get_header-first (cl_header n) content_length_name (b' ' ∷ decimal n) [] content_length_name
        (cl_cut n) cl_name.0
      ∙ (trim_space-blank (decimal n) ∙ trim_space-words (decimal n) (decimal-IsWord n)),
  get_header-not_first (cl_header n) content_length_name (b' ' ∷ decimal n) []
      transfer_encoding_name (cl_cut n) cl_name.1,
)

te_value :
    (get_header (te_chunked ∷ []) content_length_name ≡ [])
    × (get_header (te_chunked ∷ []) transfer_encoding_name ≡ codes "chunked")
unfolding get_header cut to_lower bytes_eq trim_space trim_front
te_value = (refl, refl)

content_length-some : (s : Bytes) → s ≢ [] → content_length s ≡ atoi s
content_length-some [] h = absurd (h refl)
content_length-some (c ∷ cs) h = refl

content_length-decimal : (n : ℕ) → n < 2 ^ 63 → content_length (decimal n) ≡ some (pos n)
content_length-decimal n h =
    content_length-some (decimal n) (numeral-ne-nil 10 n n) ∙ atoi-decimal n h

chunked_name : is_chunked (codes "chunked") ≡ true
unfolding is_chunked index has_prefix to_lower
chunked_name = refl

sized_name : is_chunked [] ≡ false
unfolding is_chunked index has_prefix to_lower
sized_name = refl

-- A body in one chunk behind the header that says so.
pub read_body-chunked :
    (m : List (Bytes × Bytes)) (body rest : Bytes)
    → All IsPlain m
    → IsChunk body
    → read_body (map header_line m ++ (te_chunked ∷ [])) (send_chunked body ++ rest)
      ≡ (ok body, rest)
unfolding read_body joined
read_body-chunked m body rest h k =
    let (length_is, encoding_is) = get_header-plain m (te_chunked ∷ []) h in
    let (many, one, _) = parse_chunked_body-in_chunks (body ∷ []) rest (k, tt) in
    rw (length_is, te_value.0, encoding_is, te_value.1, chunked_name, one body)
      (many ∙ ap (λ b. (ok b, rest)) (append-nil body))

-- A body behind the header that says how long it is.
pub read_body-sized :
    (m : List (Bytes × Bytes)) (body rest : Bytes)
    → All IsPlain m
    → length body ≤ max_alloc
    → read_body (map header_line m ++ (cl_header (length body) ∷ [])) (body ++ rest)
      ≡ (ok body, rest)
unfolding read_body
read_body-sized m [] rest h k =
    let (length_is, encoding_is) = get_header-plain m (cl_header 0 ∷ []) h in
    rw (
      length_is,
      (cl_value 0).0,
      encoding_is,
      (cl_value 0).1,
      sized_name,
      content_length-decimal 0 (omega arith),
    )
read_body-sized m (c ∷ cs) rest h k =
    let n = suc (length cs) in
    let (length_is, encoding_is) = get_header-plain m (cl_header n ∷ []) h in
    rw
      (
        length_is,
        (cl_value n).0,
        encoding_is,
        (cl_value n).1,
        sized_name,
        content_length-decimal n (omega arith),
      )
      (read_bytes-append (c ∷ cs) rest k)

-- No body behind no such header.
pub read_body-bare :
    (m : List (Bytes × Bytes)) (rest : Bytes)
    → All IsPlain m
    → read_body (map header_line m ++ []) rest ≡ (ok [], rest)
unfolding read_body get_header is_chunked index has_prefix to_lower
read_body-bare m rest h = let (one, two) = get_header-plain m [] h in rw (one, two)
