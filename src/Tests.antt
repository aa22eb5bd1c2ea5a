-- ===== src/Tests.antt =====
-- Concrete inputs for the theorems, and runs of the definitions.
mod Sort
mod Merge
mod Gc
mod RepoOp
mod Update
mod Cdc
mod Range
