-- ===== src/Pipeline.antt =====
-- adapters/core/typescript/src/pipeline.ts, in parts, and what is proved of it.
pub mod State
pub mod Submit
pub mod Deliver
pub mod Stop
pub mod Steps
pub mod Frame
pub mod Validity
pub mod Settling
pub mod Ending
pub mod Invariant
pub mod Order
pub mod History
pub mod Shutdown
pub mod Verdict
pub mod Drain
mod Tests
