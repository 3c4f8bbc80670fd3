-- ===== src/Utils.antt =====
-- include/dracon/utils.h: the utilities shared by the server and its plugins.
pub mod LruCache
pub mod UnescapeUrl
pub mod Buffer
pub mod Split
mod Tests
