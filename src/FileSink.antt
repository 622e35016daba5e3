-- ===== src/FileSink.antt =====
-- adapters/core/typescript/src/file-sink.ts: the class `FileSink`. What `encodeRecord` makes of a record is a parameter, and
-- so is what the file system does with each write.
pub mod Writes
pub mod Order
mod Tests
