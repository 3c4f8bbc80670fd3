-- ===== src/Scanner.antt =====
-- The shape of the loops of src/server/http_parser.h: a turn looks at the unread bytes, and either
-- consumes some and goes round again, or stops; a thrown response leaves the loop.
pub mod Fuel
pub mod Progress
pub mod Append
pub mod Defs
