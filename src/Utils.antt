-- ===== src/Utils.antt =====
-- lib/utils.c: ids in binary and as text.
pub mod Hex
pub mod Digits
