-- ===== src/Sstable/Writer.antt =====
-- internal/sstable/writer.go: `Writer` collects entries into blocks, and `Close` writes the index, the
-- Bloom filter and the footer behind them and renames the file. What the operating system answers to
-- each call is an argument.
pub mod Layout
use pebble_db.Prelude.{
  ℕ, ◌+◌, ◌^◌, ◌%◌, Ordering, ltb, leb, ◌==◌, if◌then◌else◌, Bool, true, false, Option, none, some,
  List, [], ◌∷◌, ◌++◌, length, take,
}
use pebble_db.Bytes.{Bytes, copy_slice, compare_bytes}
use pebble_db.Result.{Result, ok, err, on_success}
use pebble_db.Wal.Log.{Answer, written, failed}
use pebble_db.Bloom
use pebble_db.Iterator.Merge.{as_bytes}
use pebble_db.Sstable.Block.{BlockError, append_entry}
use pebble_db.Sstable.Index
use pebble_db.Sstable.Footer

pub data WriterError : Type 0 where
  invalid_block_size key_out_of_order key_too_large : WriterError
  io : ℕ → WriterError

-- `file` is the content of the temporary file. An empty last key is nil, as no last key is.
pub record Writer : Type 0 where
  pub file : Bytes
  pub block_size : ℕ
  pub current : Bytes
  pub index : List Index.IndexEntry
  pub bloom : Bloom.Filter
  pub last_key : Option Bytes
  pub offset : ℕ

abbrev pub at_least_one : ℕ → ℕ
at_least_one expected = if ltb expected 1 then 1 else expected

-- `NewWriter` but for the creation of the file. A filter is given by its two sizes for an expected
-- number of entries, which `bloom.New` computes in floating point.
unfoldable pub new_writer : (ℕ → ℕ × ℕ) → ℕ → ℕ → Writer × Option WriterError
new_writer sizes block_size expected =
    let filled = sizes (at_least_one expected) in
    let w : Writer = record {
      file = [];
      block_size = block_size;
      current = [];
      index = [];
      bloom = Bloom.new filled.0 filled.1;
      last_key = none;
      offset = 0;
    } in
    (w, if leb block_size 0 then some invalid_block_size else none)

-- `w.file.Write`
unfoldable pub write : Writer → Bytes → Answer → Writer × Option WriterError
write w buf written = (record w { file = w.file ++ buf }, none)
write w buf (failed n e) = (record w { file = w.file ++ take n buf }, some (io e))

-- `flushBlock`
unfoldable pub flush_block : Writer → Answer → Writer × Option WriterError
unfolding write
flush_block w a =
    let flushed =
      on_success (write w w.current a)
        (λ w'. (
          record w' {
            index =
                w.index
                ++ record {
                  last_key = as_bytes w.last_key;
                  offset = w.offset;
                  length' = length w.current;
                }
                  ∷ [];
            offset = (w.offset + length w.current) % 2 ^ 64;
            current = [];
          },
          none,
        ))
        (λ w'. w') in
    if length w.current == 0 then (w, none) else flushed

-- `w.lastKey != nil && bytes.Compare(key, w.lastKey) <= 0`
abbrev pub out_of_order : Option Bytes → Bytes → Bool
out_of_order none key = false
out_of_order (some last) key = elim (compare_bytes key last) [ Ordering.gt ↦ false | _ ↦ true ]

-- A key or a value that is too long leaves the block as it is.
abbrev pub appended : Writer → Bytes → Result BlockError Bytes → Writer × Option WriterError
appended w key (err _) = (w, some key_too_large)
appended w key (ok block) =
    (record w { current = block; bloom = Bloom.add w.bloom key; last_key = copy_slice key }, none)

unfoldable pub append_to_block : Writer → Bytes → Bytes → Bool → Writer × Option WriterError
append_to_block w key value tombstone = appended w key (append_entry w.current key value tombstone)

-- The flush that makes room.
abbrev pub make_room :
    Bool → Bool → Writer → Writer × Option WriterError → Writer × Option WriterError
make_room true true w flushed = flushed
make_room true false w flushed = (w, none)
make_room false some_entries w flushed = (w, none)

-- `Add`
unfoldable pub add : Writer → Bytes → Bytes → Bool → Answer → Writer × Option WriterError
unfolding flush_block append_to_block
add w key value tombstone a =
    let entry_size = 4 + length key + 4 + length value + 1 in
    let size = length w.current in
    let room = make_room (ltb w.block_size (size + entry_size)) (ltb 0 size) w (flush_block w a) in
    if out_of_order w.last_key key
    then (w, some key_out_of_order)
    else on_success room (λ w'. append_to_block w' key value tombstone) (λ w'. w')

-- What the operating system answers to the calls of `Close`.
pub record CloseAnswers : Type 0 where
  pub block : Answer
  pub index : Answer
  pub bloom : Answer
  pub footer : Answer
  pub sync : Option ℕ
  pub close : Option ℕ
  pub rename : Option ℕ

-- A write that also moves the offset.
unfoldable pub write_part : Writer → Bytes → Answer → Writer × Option WriterError
unfolding write
write_part w buf a =
    on_success (write w buf a)
      (λ w'. (record w' { offset = (w'.offset + length buf) % 2 ^ 64 }, none)) (λ w'. w')

-- The footer for parts that start at two offsets.
abbrev pub footer_of : Writer → ℕ → ℕ → Footer.Footer
footer_of w index_offset bloom_offset = record {
  index_offset = index_offset;
  index_length = length (Index.encode w.index);
  bloom_offset = bloom_offset;
  bloom_length = length (Bloom.encode w.bloom);
  version = Footer.current_version;
  magic = Footer.magic_number;
}

-- The writes of `Close`.
unfoldable pub write_tail : Writer → CloseAnswers → Writer × Option WriterError
unfolding flush_block write_part write
write_tail w a =
    on_success (flush_block w a.block)
      (λ w1.
        on_success (write_part w1 (Index.encode w1.index) a.index)
          (λ w2.
            on_success (write_part w2 (Bloom.encode w2.bloom) a.bloom)
              (λ w3. write w3 (Footer.encode (footer_of w3 w1.offset w2.offset)) a.footer)
              (λ w3. w3))
          (λ w2. w2))
      (λ w1. w1)

-- What a closed writer leaves under its temporary and its final name, and the error.
pub record Closed : Type 0 where
  pub error : Option WriterError
  pub tmp : Option Bytes
  pub final : Option Bytes

abbrev pub cleaned_up : WriterError → Closed
cleaned_up e = record { error = some e; tmp = none; final = none }

unfoldable pub finish : CloseAnswers → Writer × Option WriterError → Closed
finish a (w, some e) = cleaned_up e
finish a (w, none) = elim a.sync [
  | some e ↦ cleaned_up (io e)
  | none ↦ elim a.close [
    | some e ↦ cleaned_up (io e)
    | none ↦ elim a.rename [
      | some e ↦ cleaned_up (io e)
      | none ↦ record { error = none; tmp = none; final = some w.file }
    ]
  ]
]

-- `Close`. Removing the temporary file is taken to succeed; its error is ignored by the source.
unfoldable pub close : Writer → CloseAnswers → Closed
unfolding write_tail finish
close w a = finish a (write_tail w a)
