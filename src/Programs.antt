-- ===== src/Programs.antt =====
-- The programs under examples/: their services, and their main functions.
pub mod Main
pub mod HelloWorld
pub mod Polling
pub mod StartupJob
pub mod RpcClient
mod Examples
