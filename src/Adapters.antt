-- ===== src/Adapters.antt =====
-- What the adapters for model providers share: numbers, token counters, attribution and what they
-- record.
pub mod Numbers
pub mod Scope
pub mod Recording
pub mod Hosting
pub mod Effects
pub mod Slug
pub mod Scoping
pub mod Sets
pub mod Reading
mod Tests
