-- ===== src/Mastra.antt =====
-- adapters/mastra/typescript/src, in parts.
pub mod Exporter
pub mod Delegation
pub mod Ended
mod Tests
