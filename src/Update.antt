-- ===== src/Update.antt =====
-- server/repo-op.c and common/branch-mgr.c: a new commit becomes the head of its repository, while
-- other requests do the same.
pub mod Server
pub mod NewCommit
pub mod Steps
pub mod Sound
pub mod Fresh
pub mod Kept
pub mod Refused
pub mod Requests
pub mod Committed
pub mod Renamed
