-- ===== src/Modindex.antt =====
-- modindex/modindex.go: the signed module index and the release that a host gets from it.
pub mod Version
pub mod Index
pub mod Select
pub mod Signing
mod Examples
