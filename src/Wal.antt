-- ===== src/Wal.antt =====
-- src/wal.rs: the write-ahead log.
pub mod Format
pub mod Scan
pub mod Writer
pub mod Reads
pub mod Entries
pub mod Log
pub mod Durable
pub mod Recovery
pub mod Ends
pub mod Opening
mod Tests
