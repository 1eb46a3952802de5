-- ===== src/Db/WalState/Laws.antt =====
-- Where the replay starts after a crash in the clean-up of a flush.
use pebble_db.Prelude.{
  refl, none, Option, ℕ, ◌+◌, ◌^◌, ◌<◌, ◌≤◌, ◌≡◌, ◌∙◌, ltb, if◌then◌else◌, Bool, true, length, drop,
  arith, length-drop, drop-append, length-append,
}
use pebble_db.Bytes.{Bytes}
use pebble_db.Result.{Result, ok, err}
use pebble_db.Codec.{put_uint64}
use pebble_db.Codec.Laws.{uint64-put, uint64-put_self, length-put_uint64}
use pebble_db.Db.WalState.{
  flush_file_after, corrupt, StateError, state_bytes, content, read_wal_flush_state, size_is,
  start_in_log, start_from, wal_replay_start_offset,
}

-- A written state is read back: the offset and the id, both of 64 bits.
pub read_wal_flush_state-written :
    (freeze id : ℕ)
    → freeze < 2 ^ 64
    → id < 2 ^ 64
    → read_wal_flush_state (content (state_bytes (record { freeze_offset = freeze; sst_id = id })))
      ≡ ok (Option.some (record { freeze_offset = freeze; sst_id = id }))
unfolding read_wal_flush_state state_bytes
read_wal_flush_state-written freeze id hf hi = rw (
  length-append (put_uint64 freeze) (put_uint64 id),
  length-put_uint64 freeze,
  length-put_uint64 id,
  uint64-put freeze (put_uint64 id) hf,
  drop-append 8 (put_uint64 freeze) (put_uint64 id) (length-put_uint64 freeze),
  uint64-put_self id hi,
)

start :
    (freeze id n : ℕ) (contains : ℕ → Bool)
    → freeze < 2 ^ 63
    → id < 2 ^ 64
    → contains id ≡ true
    → wal_replay_start_offset
        (content (state_bytes (record { freeze_offset = freeze; sst_id = id })))
        contains
        (size_is n)
      ≡ ok (if ltb n freeze then 0 else freeze)
unfolding wal_replay_start_offset start_from start_in_log
start freeze id n contains hf hi has =
    rw (read_wal_flush_state-written freeze id (omega arith) hi, has) (ground arith)

-- A crash after `wal.flush` has been written for a table that the manifest has, and for an offset
-- inside the log. If the log is still whole, the replay starts at that offset, behind the records of
-- the flushed memtable. If the log has been cut and what is left is shorter than what was cut, it
-- starts at its beginning. But if what is left is at least as long, it starts as far into the cut log
-- as the cut was, and skips records that are in no table.
pub wal_replay_start_offset-after_crash :
    (file : Bytes) (freeze id : ℕ) (contains : ℕ → Bool)
    → freeze < 2 ^ 63
    → id < 2 ^ 64
    → contains id ≡ true
    → freeze ≤ length file
    → let started : ℕ → Result StateError ℕ = λ n.
      wal_replay_start_offset
        (content (state_bytes (record { freeze_offset = freeze; sst_id = id })))
        contains
        (size_is n) in
      (started (length file) ≡ ok freeze)
      × (started (length (drop freeze file))
          ≡ ok (if ltb (length file) (freeze + freeze) then 0 else freeze))
wal_replay_start_offset-after_crash file freeze id contains hf hi has whole =
    let cut = length-drop freeze file in
    (
      start freeze id (length file) contains hf hi has ∙ ground (arith, whole),
      start freeze id (length (drop freeze file)) contains hf hi has ∙ ground (arith, cut, whole),
    )

-- A file that is too short is refused once: the next read takes it for one that is not there.
read_wal_flush_state-after :
    (bs : Bytes)
    → length bs < 16
    → (read_wal_flush_state (content bs) ≡ err corrupt)
      × (read_wal_flush_state (flush_file_after (content bs)) ≡ ok none)
unfolding read_wal_flush_state flush_file_after
read_wal_flush_state-after bs few =
    let short : ltb (length bs) 16 ≡ true = ground (arith, few) in rw short (refl, refl)
