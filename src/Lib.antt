-- ===== src/Lib.antt =====
-- GTest runs VTC test scripts against HTTP clients and servers. This library models the parts that
-- carry its protocol logic and proves what makes them correct. Paths are from the repository's
-- root.
--
-- The parts and their files:
--  Hpack: pkg/hpack, header compression (RFC 7541). Hpack.Static and Hpack.Table are table.go, the
--    static and the dynamic table; Hpack.Integer and Hpack.Text are `encodeInteger`,
--    `decodeInteger`, `encodeString` and `decodeString`; Hpack.Encode and Hpack.Encode.Explicit
--    are encode.go, an Encoder being its table and its buffer; Hpack.Decode is decode.go, a
--    decoder being its table and a reader the list of the bytes still unread.
--  Http2.Frame: pkg/http2/frame.go, every writer and reader of a frame, on lists of bytes.
--  Http2.Stream: pkg/http2/stream.go, a stream as a record, `UpdateState` as `next_state`, and the
--    StreamManager as a map; `modify` is a write through a pointer that the map holds.
--  Http2.Conn: pkg/http2/conn.go, the connection as a record, its preface and settings;
--    Http2.Conn.Handlers the frame handlers: one takes the connection and a frame, and gives the
--    connection back with the error or none. It uses the other parts of Http2 and Hpack. `written`
--    is what went out, `spawned` what a goroutine started by a handler is to write.
--  Http2.Commands: pkg/http2/commands.go, what a script sends on a stream and waits for; a command
--    answers that it is done, that it failed, or that it is blocked in `Wait`, in which case it has
--    changed nothing. Http2.Commands.Expect is `Expect`, Http2.Commands.Frames frame_commands.go;
--    the other files there hold proofs, Http2.Commands.Exchange those of two connections together.
--  Http2.Handler: pkg/http2/handler.go. Http2.Handler is `tokenizeCommand`, Http2.Handler.Options
--    the loop over options, which each command has a table for in Http2.Handler.Actions and, for
--    those that send one frame, in Http2.Handler.FrameActions; Http2.Handler.Scripts is
--    `ProcessStreamCommand` and `runStream`, and Http2.Handler.Tasks the commands on the connection
--    with the streams that they start and wait for: a goroutine is a task, which runs a line at a
--    step. The other files there hold proofs.
--  Http1: pkg/http1, a session as a record whose `received` is what is still to be read and whose
--    `sent` is what went out, with the loops of http.go. Http1.Input is its buffer: a reader takes
--    bytes off the input and answers a value or an error. Http1.Receive is rxreq.go and rxresp.go,
--    Http1.Send txreq.go and txresp.go. Http1.Expect is expect.go, with what it calls of strconv
--    and regexp as a record Library. Http1.Commands is commands.go, and Http1.Handler the options
--    of `txreq` and `txresp` in handler.go, where the reading of a file is given. The other files
--    of Http1 hold proofs.
--  Session: pkg/session/session.go, the options and the loop of `Run`, over a state of what is
--    outside and the functions that the run is given.
--  Barrier: pkg/barrier/barrier.go. A critical section is one function, and the interleavings of
--    the participants of a barrier are the runs of the relation Step.
--  Macro: pkg/macro/macro.go, the store of macros and the expansion of ${name}.
--  Vtc: pkg/vtc/parser.go, the tokens and the tree of a script. Vtc.Lexer is `tokenize` and
--    `tokenizeLine`, on the lines that the scanner gives; Vtc.Parser is the rest, a parser taking
--    the tokens from its position on. It uses `StripComments` of Util.
--  Runner: Runner.Specs is the text that cmd/gvtest/handlers.go makes of a block of a script, which
--    the handlers then tokenize; Runner.Executor the registry and the executor of
--    pkg/vtc/commands.go and pkg/vtc/executor.go, over any commands; Runner.Builtins the commands
--    barrier and filewrite and Runner.Checks the commands shell and feature of pkg/vtc/builtin_commands.go, over what the system
--    answers. The other files there hold proofs.
--  Util: pkg/util/string.go, `StripComments` and `GenerateBody`.
--  Common: what these share: lists measured by native numbers, bits, maps, results, and the
--    functions of the strings package that the code calls. Tests: the theorems at concrete inputs.
--
-- Conventions: a Go string and a byte slice are lists of numbers; unsigned integers wrap by an
-- explicit remainder; an int32 is kept as its 32 bits; an int is an integer without a bound where
-- no value of the code comes near one. A map is an association list with one entry for a key, so
-- where Go ranges over a map in any order the model takes the order of the list. Errors are values
-- of a data type for each part, without their texts. Log calls are left out. In pkg/http1 every
-- write succeeds, gzip is the parameter `compress`, `ToLower` is that of ASCII texts, and the
-- session that an error leaves is not kept.
--
-- Bounds and fuel: the loop of `Decode` runs on the length of the block and that of `Expand` on
-- the length of the text; each round takes a byte at least, so neither runs out. A round of
-- `GenerateBody` writes a byte at least and runs on the length. `evict` has one round for an
-- entry. The loop over the options of a command runs on the arguments, of which it skips those that an
-- option has taken. The loops over header lines, chunks and trailers run on the length of the input, of which
-- each round takes a byte, and so does that of `tokenizeLine`. `Parse` has two rounds and more for
-- a token; it runs out only where the code goes round without taking a token. An integer has at
-- most ten groups of seven bits for a uint64. `make` panics above 2^48 bytes, which is the largest
-- allocation of Go on 64-bit systems, and is an error value here.
--
-- Not modelled: the receive loop of a connection, sockets, processes, terminals, logging and the
-- command line, which are input and output; the client and server commands, which start goroutines
-- on sockets, and the process command; the other commands of pkg/http1/handler.go; and `SplitArgs`
-- and the wrappers of the standard library in pkg/util. Pauses are left out. The String methods of
-- pkg/http2 serve the log.
pub mod Common
pub mod Barrier
pub mod Hpack
pub mod Http1
pub mod Http2
pub mod Macro
pub mod Util
pub mod Vtc
pub mod Runner
pub mod Session
pub mod Tests
