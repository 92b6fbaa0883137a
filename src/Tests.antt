-- ===== src/Tests.antt =====
-- The library's theorems applied at concrete inputs, by part of the program.
mod Hpack
mod Http2
mod Commands
mod Handler
mod Runner
mod Frames
mod Barrier
mod Http1
mod Macro
mod Util
mod Expect
mod Session
mod Vtc
