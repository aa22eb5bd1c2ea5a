-- ===== src/Commit.antt =====
-- common/commit-mgr.c: commits and their traversal.
pub mod Object
pub mod Traverse
