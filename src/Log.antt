-- ===== src/Log.antt =====
-- The package log: levels and fields.
pub mod Level
pub mod Logger
pub mod Journald
pub mod Handler
pub mod Text
pub mod Field
mod Examples
