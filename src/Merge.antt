-- ===== src/Merge.antt =====
-- common/merge-new.c: two-way and three-way merge of directory trees.
pub mod Options
pub mod Entries
pub mod Directories
pub mod Trees
pub mod Loop
pub mod Rounds
pub mod Sorting
pub mod Unchanged
pub mod Depth
pub mod Kept
