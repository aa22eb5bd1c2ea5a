-- ===== src/Range.antt =====
-- server/access-file.c: the byte ranges of a request.
pub mod Parse
pub mod Bounds
pub mod Meaning
