-- ===== src/Plugin.antt =====
-- plugin/: the boundary between the host and a module's process.
pub mod Proto
pub mod ProtoConsole
pub mod Conv
pub mod Answers
pub mod Screens
pub mod Rpc
pub mod Server
pub mod Adapter
pub mod Connection
pub mod Resolving
pub mod Manager
pub mod Diag
pub mod Decode
pub mod Tail
pub mod Wire
pub mod Transparency
mod Examples
