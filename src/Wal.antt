-- ===== src/Wal.antt =====
-- The write-ahead log (src/infrastructure/wal).
pub mod Bytes
pub mod Types
pub mod Codec
pub mod Recover
pub mod Writer
pub mod Cursor
pub mod Segment
pub mod Subscription
pub mod Forwarder
pub mod Append
pub mod Open
pub mod Head
mod Tests
