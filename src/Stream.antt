-- ===== src/Stream.antt =====
-- src/stream/: the traits of input streams, the functions over them, and the streams.
pub mod Core
pub mod Ops
pub mod Reader
pub mod Slice
pub mod Range
pub mod Str
pub mod Easy
pub mod Bytes
pub mod BufReader
pub mod Decoder
pub mod Buffered
pub mod Iterator
pub mod Position
pub mod Positioned
pub mod Tests
