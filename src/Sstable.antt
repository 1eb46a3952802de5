-- ===== src/Sstable.antt =====
-- internal/sstable: data blocks, the index, the footer, the writer and the reader of a table, its cache and
-- its iterator.
pub mod Block
pub mod Index
pub mod Footer
pub mod Writer
pub mod Search
pub mod Cache
pub mod Reader
pub mod Groups
pub mod Indexed
pub mod Found
pub mod Filter
pub mod Table
pub mod Iterator
