-- ===== src/RepoOp.antt =====
-- server/repo-op.c: changing one directory of a tree and rewriting the directories above it.
pub mod Names
pub mod Entries
pub mod Edit
pub mod Found
pub mod Saved
pub mod Refine
pub mod Leaves
pub mod Operations
pub mod Changes
pub mod Resolve
pub mod Unique
pub mod Canonical
pub mod Multi
pub mod Added
