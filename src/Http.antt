-- ===== src/Http.antt =====
-- include/dracon/http.h.
pub mod ContentLength
pub mod Request
pub mod Response
mod Tests
