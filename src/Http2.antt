-- ===== src/Http2.antt =====
-- pkg/http2: Frame is the wire format (frame.go), Stream the state of one stream and the manager of
-- all (stream.go), Conn the connection that processes frames (conn.go), Commands what a script does on
-- a stream (commands.go, frame_commands.go), Handler the lines of a script (handler.go).
pub mod Frame
pub mod Stream
pub mod Conn
pub mod Commands
pub mod Handler
