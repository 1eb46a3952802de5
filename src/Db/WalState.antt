-- ===== src/Db/WalState.antt =====
-- internal/db/wal_state.go: the file `wal.flush`, and where the replay of the log starts.
pub mod Laws
use pebble_db.Prelude.{
  ℕ, ◌+◌, ◌-◌, ◌^◌, ltb, leb, if◌then◌else◌, Bool, true, false, Option, none, some, List, [], ◌∷◌,
  ◌++◌, length, drop,
}
use pebble_db.Bytes.{Bytes}
use pebble_db.Result.{Result, ok, err}
use pebble_db.Codec.{put_uint64, uint64}
use pebble_db.Db.{WalFlushState}

pub data StateError : Type 0 where
  read_failed : ℕ → StateError
  corrupt : StateError

-- What the file is when it is written, and the file system's errors, the only ones of the write.
pub state_bytes : WalFlushState → Bytes
state_bytes st = put_uint64 st.freeze_offset ++ put_uint64 st.sst_id

-- The content of a file, or why it cannot be read: it does not exist, or another error.
pub data Content : Type 0 where
  content : Bytes → Content
  not_there : Content
  unreadable : ℕ → Content

-- `readWalFlushState`. `FreezeOffset` is cast to `int64`, so that it may be negative: `leb 2^63`.
unfoldable pub read_wal_flush_state : Content → Result StateError (Option WalFlushState)
read_wal_flush_state not_there = ok none
read_wal_flush_state (unreadable e) = err (read_failed e)
read_wal_flush_state (content bs) =
    if ltb (length bs) 16
    then err corrupt
    else ok (some (record { freeze_offset = uint64 bs; sst_id = uint64 (drop 8 bs) }))

-- The file that `readWalFlushState` leaves: one that is too short is removed.
unfoldable pub flush_file_after : Content → Content
flush_file_after not_there = not_there
flush_file_after (unreadable e) = unreadable e
flush_file_after (content bs) = if ltb (length bs) 16 then not_there else content bs

-- The size of the log, as `os.Stat` gives it.
pub data Stat : Type 0 where
  size_is : ℕ → Stat
  no_log : Stat
  stat_failed : ℕ → Stat

pub start_in_log : ℕ → Stat → Result StateError ℕ
start_in_log freeze no_log = ok 0
start_in_log freeze (stat_failed e) = err (read_failed e)
start_in_log freeze (size_is n) = if ltb n freeze then ok 0 else ok freeze

start_from : Result StateError (Option WalFlushState) → (ℕ → Bool) → Stat → Result StateError ℕ
unfolding start_in_log
start_from (err e) contains log = err e
start_from (ok none) contains log = ok 0
start_from (ok (some st)) contains log =
    let inside = start_in_log st.freeze_offset log in
    if contains st.sst_id then (if leb (2 ^ 63) st.freeze_offset then ok 0 else inside) else ok 0

-- `walReplayStartOffset`, with the manifest's `Contains`.
unfoldable pub wal_replay_start_offset : Content → (ℕ → Bool) → Stat → Result StateError ℕ
unfolding start_from
wal_replay_start_offset file contains log = start_from (read_wal_flush_state file) contains log
