-- ===== src/Chargebee.antt =====
-- sinks/chargebee/typescript/src, in parts.
pub mod Event
pub mod Flatten
pub mod Sink
pub mod Retry
pub mod Credentials
pub mod Origin
pub mod Contract
pub mod Sending
pub mod Rules
mod Tests
