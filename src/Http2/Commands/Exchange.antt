-- ===== src/Http2/Commands/Exchange.antt =====
-- Two sides of a script: `TxReq` on one connection, `RxReq` and `Expect` on the other
-- (pkg/http2/commands.go, with the frames and the loop between them).
use gtest.Common.{false}
use gtest.Http2.Frame.{Frame}
use gtest.Http2.Stream.{Stream}
use gtest.Http2.Conn.{Conn}

-- A stream that was waited for.
abbrev pub taken_signal : Stream → Stream
taken_signal s = record s { signalled = false }
