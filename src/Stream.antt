-- ===== src/Stream.antt =====
-- include/dracon/stream.h: chunked_stream and ostream_buffer.
pub mod Chunked
pub mod Hex
pub mod RoundTrip
pub mod Decode
pub mod Encode
pub mod Ostream
mod Tests
