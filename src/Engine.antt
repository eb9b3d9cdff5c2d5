-- ===== src/Engine.antt =====
-- engine/: the contract between the host and its drivers, as far as it computes.
pub mod Types
pub mod Services
pub mod Driver
pub mod Describe
pub mod Helpers
pub mod Route
pub mod Network
pub mod Resolve
pub mod Template
mod Examples
