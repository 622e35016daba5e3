-- ===== src/Client.antt =====
-- adapters/core/typescript/src/client.ts, in parts.
pub mod Options
pub mod Calls
pub mod Refinement
mod Tests
