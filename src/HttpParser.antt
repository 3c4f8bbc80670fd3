-- ===== src/HttpParser.antt =====
-- src/server/http_parser.h: class http_request_parser.
pub mod Detail
pub mod State
pub mod Lines
pub mod Head
pub mod Body
pub mod Incremental
pub mod Chunked
pub mod Sized
pub mod Framing
pub mod Limits
pub mod Announced
pub mod Output
mod Tests
