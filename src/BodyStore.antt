-- ===== src/BodyStore.antt =====
-- src/utils/body-record.ts and src/utils/body-key-store.ts: records at the end of a file, and the key
-- store over them.
pub mod Crc
pub mod Tail
pub mod Records
pub mod Keys
pub mod Swap
pub mod Tests
