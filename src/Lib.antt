-- ===== src/Lib.antt =====
-- PebbleDB, an embedded key-value store with a write-ahead log, a skip-list memtable and sorted tables
-- on disk (a log-structured merge tree), written in Go.
--
-- How the parts interact. A write (internal/db/put.go, delete.go, write.go) queues a record in a batch.
-- The batch goes to the log with one sync (internal/db/batch.go, internal/wal/wal.go) and then into the
-- active memtable (internal/memtable/skiplist.go). A memtable that has grown past its size is queued and
-- flushed to a table (internal/db/flush.go), which the manifest commits (internal/manifest), and the log
-- is cut from the front. Two tables at a time are merged into one (internal/db/compactor.go,
-- internal/iterator/merge_core.go). A read asks the batch, the memtables and the tables, the newest
-- first (internal/db/get.go).
--
-- The files. Names are the source's, in snake case; a helper that the source has as a part of a function
-- is named for what it does, and its comment says which part it is.
--  Prelude, Result: shared names, lists measured by native numbers, Go's pair of a value and an error.
--  Bytes: byte slices and their order, with less and equal of internal/memtable/skiplist.go.
--  Codec: encoding/binary, io.ReadFull and crc32.ChecksumIEEE of the standard library, written out.
--  Wal: internal/wal. Limits is limits.go; Format is encodeRecord and readOneRecord; Replay is
--   ReplayFromWithRecovery; Log is AppendBatch and TruncateBefore.
--  Memtable: internal/memtable/skiplist.go and snapshot.go. The list is its nodes at level 0 with the
--   heights of their towers, which give the pointers of the other levels.
--  Iterator: the interface of internal/iterator/iterator.go with the laws of an iterator without faults;
--   Iterator.Merge is merge_core.go over any such iterator, Iterator.Cursor merge.go.
--  Bloom: internal/bloom/bloom.go.
--  Sstable: internal/sstable. Block, Index and Footer are the formats of block.go, index.go and
--   footer.go; Writer is writer.go, Reader reader.go, Cache cache.go, Iterator iterator.go; Table and
--   its children join what was written to what is read.
--  Manifest: internal/manifest/format.go and manifest.go.
--  Db: internal/db. Get is get.go; Batch is batch.go and write.go; Flush is flush.go; Compact is
--   compaction.go and compactor.go with mergeReaders of internal/sstable/merge_adapter.go; WalState is
--   wal_state.go; Scan has the memory's sources of scan.go; Open is Open of db.go with
--   sst_cleanup.go. An open table is an interface here, Db.Table
--   and Db.Builder, whose laws are Db.Get.Layers.Holds and Db.Flush.Keeps.Builds.
--  Acceptance: internal/db/acceptance/framework. Dag is verifier/dag.go; Scheduler is
--   scheduler/scheduler.go; Crash is crash/point.go and registry.go, with Crash.Policy for policy.go
--   and Crash.Manager for config.go and manager.go; Dataset is dataset/dataset.go; Verifier is
--   verifier/result.go, helpers.go and get.go, with Verifier.Engine for engine.go.
--  Tests: the theorems applied to concrete inputs.
--
-- State and faults. State is passed explicitly. What the operating system answers is an argument: how
-- much of a write was done, whether a sync or a rename failed. Random heights are arguments too. A lock
-- makes an operation one step; where the code gives a lock up in the middle, what other threads do then
-- is an argument (the records queued while a batch is written, the tables published while a compaction
-- merges or commits). A nil slice is none where the code tells it from an empty one. The steps of
-- a truncation of the log are taken to succeed, and publications during a compaction's commit come before its manifest record.
--
-- Fuel. Wal.Replay, Manifest and Sstable.Index take one turn more than there are bytes, or one for each;
-- each turn but the last consumes some. A merge takes one turn more than there are entries. The
-- theorems show that this is enough. A block's seek takes one turn more than the block has bytes.
-- The order of the verifier's modules takes a turn for each module and each dependency, which is
-- shown to be enough; the search among the blocks of a table and the iterator's advance take as many
-- turns as there are blocks or entries, and one more.
--
-- Not modelled: closing and exporting a database, the retry loops' delays, ScanIterator as a whole, the
-- LRU cache of a third party (an interface with its law), the directory lock, the command line, and of
-- the acceptance framework the processes, the files, JSON and checksums, events, telemetry and the
-- verifier's modules but for the one that looks keys up.
pub mod Prelude
pub mod Bytes
pub mod Result
pub mod Codec
pub mod Sstable
pub mod Wal
pub mod Iterator
pub mod Manifest
pub mod Memtable
pub mod Bloom
pub mod Db
pub mod Tests
pub mod Acceptance
