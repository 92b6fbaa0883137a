-- ===== src/Hpack/Encode/Losses.antt =====
-- What the encoder of pkg/hpack/encode.go does not put on the wire.
use gtest.Common.{ℕ, ◌^◌, ◌<◌, ◌≡◌, refl, List, ok, arith, ◌++◌}
use gtest.Hpack.Static.{HeaderField}
use gtest.Hpack.Table.{set_max_size}
use gtest.Hpack.Integer.Encoding.{encode_integer-integer, integer}
use gtest.Hpack.Encode.{Encoder, encode, set_max_dynamic_table_size}

-- For a uint32 size, `SetMaxDynamicTableSize` appends the size update to the buffer, and the next
-- `Encode` clears it: that call gives what it would give had the table been changed and nothing
-- been written.
pub encode-set_max_dynamic_table_size :
    (e : Encoder) (m : ℕ) (hs : List HeaderField)
    → m < 2 ^ 32
    → (e' : Encoder) × (set_max_dynamic_table_size e m ≡ ok e')
      × (e'.buf ≡ e.buf ++ integer 5 0x20 m)
      × (encode e' hs ≡ encode (record e { table = set_max_size e.table m }) hs)
unfolding set_max_dynamic_table_size encode
encode-set_max_dynamic_table_size e m hs h = (
  record { table = set_max_size e.table m; buf = e.buf ++ integer 5 0x20 m },
  rw (encode_integer-integer e.buf 5 1 m (omega arith) (omega arith) (omega arith)),
  refl,
  refl,
)
