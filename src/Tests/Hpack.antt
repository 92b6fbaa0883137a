-- ===== src/Tests/Hpack.antt =====
-- pkg/hpack at concrete fields and tables.
use gtest.Common.{
  ℕ, ◌*◌, ◌^◌, ◌≡◌, ◌≢◌, false, List, [], ◌∷◌, ◌++◌, map, Bytes, codes, ok, err, arith,
}
use Prim.Native.String.{String}
use gtest.Hpack.Static.{HeaderField}
use gtest.Hpack.Table.{DynamicTable, new_dynamic_table, add, search}
use gtest.Hpack.Table.Bounds.{fitting}
use gtest.Hpack.Table.Exact.{IsExact, new_dynamic_table-IsExact, add-entries}
use gtest.Hpack.Table.Search.{Answers, search-Answers}
use gtest.Hpack.Integer.{encode_integer, decode_integer}
use gtest.Hpack.Integer.RoundTrip.{decode-encode_integer}
use gtest.Hpack.Encode.{Encoder, new_encoder, encode}
use gtest.Hpack.Decode.{stuck, decode}
use gtest.Hpack.Decode.Ends.{decode-ne-stuck}
use gtest.Hpack.Decode.Updates.{decode_update_truncated}
use gtest.Hpack.RoundTrip.{pair, decode-encode}

abbrev encoder : Encoder
encoder = new_encoder 100

abbrev table : DynamicTable
table = new_dynamic_table 100

abbrev header : String → String → HeaderField
header n v = record { name = codes n; value = codes v; sensitive = false }

abbrev id_field : HeaderField
id_field = header "x-id" "1"

abbrev fields : List HeaderField
fields = header ":method" "GET" ∷ id_field ∷ id_field ∷ []

table-IsExact : IsExact table
table-IsExact = new_dynamic_table-IsExact 100 (omega arith)

RoundTrips : Encoder → List HeaderField → Type 0
RoundTrips e hs =
    (e' : Encoder) × (got : List HeaderField) × (encode e hs ≡ ok e')
    × (decode e.table e'.buf ≡ (ok got, e'.table))
    × (map pair got ≡ map pair hs)
    × IsExact e'.table

decode-encode_example : RoundTrips encoder fields
unfolding RoundTrips
decode-encode_example =
    decode-encode encoder fields table-IsExact (omega arith, (omega arith, (omega arith, tt)))

add-entries_example :
    IsExact (add table id_field) × ((add table id_field).entries ≡ fitting 100 (id_field ∷ []))
add-entries_example = add-entries table id_field table-IsExact (omega arith)

search-Answers_example :
    Answers table (codes "x-id") (codes "1") (search table (codes "x-id") (codes "1"))
search-Answers_example = search-Answers table (codes "x-id") (codes "1")

-- An indexed field, a size update that is cut off.
decode-ne-stuck_example : (decode table (0x82 ∷ 0x3f ∷ [])).0 ≢ err stuck
decode-ne-stuck_example = decode-ne-stuck table (0x82 ∷ 0x3f ∷ [])

IntegerComesBack : ℕ → Type 0
IntegerComesBack v =
    (e : Bytes) × (encode_integer [] 5 (1 * 2 ^ 5) v ≡ ok ([] ++ e))
    × (decode_integer (e ++ (7 ∷ [])) 5 ≡ (ok v, 7 ∷ []))

decode-encode_integer_example : IntegerComesBack 1337
unfolding IntegerComesBack
decode-encode_integer_example =
    decode-encode_integer [] 5 1 1337 (7 ∷ []) (omega arith) (omega arith) (omega arith)

decode_update_truncated_example : decode table (0x3f ∷ 0x9a ∷ []) ≡ (ok [], table)
decode_update_truncated_example =
    decode_update_truncated table (0x9a ∷ []) ((omega arith, omega arith), tt) (omega arith)
