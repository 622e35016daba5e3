-- ===== src/Codec.antt =====
-- adapters/core/typescript/src/codec.ts, in parts.
pub mod Keys
pub mod Entries
pub mod Sorting
pub mod Encodable
pub mod Failing
pub mod Lookup
pub mod Canonical
pub mod Parsing
pub mod Decoding
mod Tests
