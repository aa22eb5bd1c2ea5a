-- ===== src/Vc.antt =====
-- common/vc-common.c: version control helpers over commits.
pub mod ConflictPath
