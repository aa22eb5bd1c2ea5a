-- ===== src/Gc.antt =====
-- server/gc/gc-core.c: garbage collection of blocks that no kept commit refers to.
pub mod Index
pub mod Live
pub mod Files
pub mod Tree
pub mod Blocks
pub mod Run
pub mod Safety
pub mod Kept
pub mod Garbage
pub mod DryRun
pub mod Ends
