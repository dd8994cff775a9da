-- ===== src/Daemon.antt =====
-- The daemon: the services that it is given, the prestart pipeline that runs before them, and the
-- watcher of their states.
pub mod LogFile
pub mod Prestart
pub mod Services
pub mod Watcher
pub mod Start
pub mod Options
pub mod Rpc
mod Examples
