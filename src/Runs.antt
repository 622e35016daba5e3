-- ===== src/Runs.antt =====
-- adapters/vercel-ai/typescript/src/runs.ts, in parts.
pub mod Tracker
pub mod Lineage
pub mod Telemetry
pub mod Hooks
pub mod Steps
mod Tests
