-- ===== src/OpenRouter.antt =====
-- adapters/openrouter/typescript/src, in parts.
pub mod Mapping
pub mod Lookup
pub mod Budget
pub mod Meter
pub mod Counters
pub mod Recorded
pub mod Valid
pub mod Stream
pub mod Frames
pub mod Resuming
pub mod Passing
pub mod Outcomes
mod Tests
