-- ===== src/Cdc.antt =====
-- common/cdc/cdc.c: cutting a file into blocks where its content says so.
pub mod Chunk
pub mod Scan
pub mod Whole
pub mod Rounds
