-- ===== src/Lago.antt =====
-- sinks/lago/typescript/src, in parts.
pub mod Event
pub mod Encode
pub mod Tally
pub mod Response
pub mod Sink
pub mod Posts
pub mod Standing
pub mod Contract
mod Tests
pub mod Preflight
pub mod Batch
pub mod Retry
pub mod Credentials
pub mod Endpoint
pub mod Reading
