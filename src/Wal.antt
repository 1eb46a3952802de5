-- ===== src/Wal.antt =====
-- The write-ahead log: `Record`, `encodeRecord` and `readOneRecord` of internal/wal/wal.go. The
-- limits, the replay and the file operations are in the modules below.
pub mod Limits
pub mod Format
pub mod Replay
pub mod Log
