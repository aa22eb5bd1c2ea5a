-- ===== src/Fs.antt =====
-- common/fs-mgr.c: directory and file objects, and the store that holds them by their ids.
pub mod Object
pub mod Dirent
pub mod Store
pub mod Extends
pub mod Sorted
pub mod Lookup
pub mod Addressed
pub mod Traverse
