-- ===== src/Bloom.antt =====
-- lib/bloom-filter.c: Bloom filters with and without counters.
pub mod Bytes
pub mod Laws
pub mod Filter
pub mod Members
