-- ===== src/Storage.antt =====
-- src/storage: the file format and the storage engine.
pub mod Header
pub mod Backend
pub mod Cache
pub mod Packed
