-- ===== src/Sstable/Table.antt =====
-- How the database makes a table: a new writer, the entries of a run one by one, `Close`, and
-- `OpenReader` on the result (`flushImmutable` of internal/db/flush.go).
pub mod File
pub mod Facts
pub mod Built
pub mod Serves
use pebble_db.Prelude.{ℕ, ◌+◌, Bool, Option, none, some, List, [], ◌∷◌}
use pebble_db.Bytes.{Bytes}
use pebble_db.Result.{Result, ok, err, on_success}
use pebble_db.Wal.Log.{Answer, next_answer, later_answers}
use pebble_db.Iterator.{Entry}
use pebble_db.Iterator.Merge.{as_bytes}
use pebble_db.Sstable.Writer.{Writer, WriterError, new_writer, add, CloseAnswers, Closed, close}
use pebble_db.Sstable.Reader.{Reader, OpenError, open_fault, OpenAnswers, open_reader}

-- The loop over the memtable's iterator. An answer is for the write that an entry may cause.
unfoldable pub add_entries : Writer → List Entry → List Answer → Writer × Option WriterError
add_entries w [] as' = (w, none)
add_entries w (e ∷ es) as' =
    on_success (add w e.key (as_bytes e.value) e.tombstone (next_answer as'))
      (λ w'. add_entries w' es (later_answers as')) (λ w'. w')

-- What the operating system answers while a table is made.
pub record TableAnswers : Type 0 where
  pub adds : List Answer
  pub close' : CloseAnswers
  pub open' : OpenAnswers

pub data TableError : Type 0 where
  not_written : WriterError → TableError
  not_opened : OpenError → TableError

abbrev pub default_block_size : ℕ
default_block_size = 4096

abbrev pub opened : Result OpenError Reader → Result TableError Reader
opened (err e) = err (not_opened e)
opened (ok r) = ok r

-- By the writer's error and the file under the final name.
unfoldable pub reopened :
    Option WriterError → Option Bytes → ℕ → OpenAnswers → Result TableError Reader
reopened (some e) final id a = err (not_written e)
reopened none none id a = err (not_opened (open_fault 2))
reopened none (some file) id a = opened (open_reader file id a)

-- After a failed `Add` the source closes the writer and removes the table.
unfoldable pub added : Writer × Option WriterError → ℕ → TableAnswers → Result TableError Reader
unfolding reopened
added (w, some e) id a = err (not_written e)
added (w, none) id a =
    let closed = close w a.close' in reopened closed.error closed.final id a.open'

-- `file_id` is what `nextReaderFileID` gives.
unfoldable pub make_table :
    (ℕ → ℕ × ℕ) → ℕ → ℕ → List Entry → TableAnswers → Result TableError Reader
unfolding added add_entries
make_table sizes file_id expected es a =
    added
      (on_success (new_writer sizes default_block_size expected) (λ w. add_entries w es a.adds)
        (λ w. w))
      file_id a
