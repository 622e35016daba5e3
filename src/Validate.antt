-- ===== src/Validate.antt =====
-- adapters/core/typescript/src/validate.ts, in parts.
pub mod Issues
pub mod Timestamps
pub mod Checks
pub mod Sound
pub mod Dedupe
pub mod Accepting
pub mod Redaction
pub mod Pointer
mod Tests
mod Samples
