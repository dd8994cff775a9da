-- ===== src/Intracom.antt =====
-- The package intracom: channels and buffer policies, subscribers, broadcasters, topics and the
-- registry.
pub mod Channel
pub mod Buffer
pub mod Subscriber
pub mod Broadcast
pub mod Topic
pub mod Failures
pub mod Registry
mod Examples
