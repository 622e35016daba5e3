-- ===== src/Retrying.antt =====
-- retry.ts of sinks/lago/typescript/src and of sinks/chargebee/typescript/src, in parts.
pub mod Policy
pub mod Delays
mod Tests
