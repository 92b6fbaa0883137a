-- ===== src/Hpack.antt =====
-- pkg/hpack: header compression. Static and Table are table.go, Integer and Text the primitives of
-- encode.go and decode.go, Encode and Decode their field representations and drivers.
pub mod Static
pub mod Table
pub mod Integer
pub mod Text
pub mod Encode
pub mod Decode
pub mod RoundTrip
