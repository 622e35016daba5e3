-- ===== src/MergeGateway.antt =====
-- adapters/merge-gateway/typescript/src, in parts.
pub mod Mapping
pub mod Meter
pub mod Streams
pub mod Recorded
pub mod Outcomes
mod Tests
