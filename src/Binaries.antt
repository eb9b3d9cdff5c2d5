-- ===== src/Binaries.antt =====
-- binaries/: the lockfile and the download of toolchains.
pub mod Lock
pub mod Mirror
pub mod Cache
pub mod Download
pub mod Extract
mod Examples
