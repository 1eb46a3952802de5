-- ===== src/Wal/Log.antt =====
-- The `WAL` handle of internal/wal/wal.go: appends, and the truncation from the front.
pub mod Append
pub mod Truncate
use pebble_db.Prelude.{
  ℕ, zero, suc, ◌+◌, ◌-◌, ◌*◌, ltb, leb, ◌==◌, if◌then◌else◌, Bool, true, false, Option, none, some,
  List, [], ◌∷◌, ◌++◌, length, take, drop,
}
use pebble_db.Bytes.{Bytes}
use pebble_db.Result.{Result, ok, err}
use pebble_db.Wal.Limits.{ReplayLimits, WalError}
use pebble_db.Wal.Format.{Record, encode_record}

-- What the operating system answers to a write: all of it, or an error after some bytes of it.
pub data Answer : Type 0 where
  written : Answer
  failed : ℕ → ℕ → Answer

-- The file's content, and the limits. What is in the file may not be on disk before a sync.
pub record Wal : Type 0 where
  pub file : Bytes
  pub limits : ReplayLimits

-- `file.Write` on a file that is open for appending.
unfoldable pub write : Wal → Bytes → Answer → Wal × Option WalError
write w buf written = (record w { file = w.file ++ buf }, none)
write w buf (failed n e) = (record w { file = w.file ++ take n buf }, some (WalError.callback e))

unfoldable pub write_encoded : Wal → Result WalError Bytes → Answer → Wal × Option WalError
unfolding write
write_encoded w (err e) a = (w, some e)
write_encoded w (ok buf) a = write w buf a

unfoldable pub append_record_locked : Wal → Record → Answer → Wal × Option WalError
unfolding write_encoded
append_record_locked w rec a = write_encoded w (encode_record w.limits rec) a

unfoldable pub next_answer : List Answer → Answer
next_answer [] = written
next_answer (a ∷ _) = a

unfoldable pub later_answers : List Answer → List Answer
later_answers [] = []
later_answers (_ ∷ as') = as'

-- The loop over the records: `rest` is run only where this record was written.
unfoldable pub and_then :
    Wal × Option WalError → (Wal → Wal × Option WalError) → Wal × Option WalError
and_then (w, some e) rest = (w, some e)
and_then (w, none) rest = rest w

unfoldable pub append_all : Wal → List Record → List Answer → Wal × Option WalError
unfolding append_record_locked and_then next_answer later_answers
append_all w [] as' = (w, none)
append_all w (r ∷ rs) as' =
    and_then (append_record_locked w r (next_answer as'))
      (λ w'. append_all w' rs (later_answers as'))

-- The answers are to the writes, in order; the last argument is the sync's error.
unfoldable pub append_batch :
    Wal → List Record → List Answer → Option WalError → Wal × Option WalError
unfolding append_all and_then
append_batch w [] as' sync = (w, none)
append_batch w (r ∷ rs) as' sync = and_then (append_all w (r ∷ rs) as') (λ w'. (w', sync))

-- `Size`
unfoldable pub size : Wal → ℕ
size w = length w.file

abbrev pub chunk_size : ℕ
chunk_size = 64 * 1024

-- The two files that a truncation writes: `wal.log` and `wal.log.truncate.tmp`.
pub record Disk : Type 0 where
  pub wal : Bytes
  pub tmp : Option Bytes

-- The loop of `copyWalTailLocked`: the temporary file grows by a chunk each round. `ReadAt` fills
-- its buffer, since `n` never passes the end of the file. The fuel is a number of rounds.
pub copy_tail : ℕ → Bytes → ℕ → Bytes → List Bytes
copy_tail zero file off tmp = []
copy_tail (suc rounds) file off tmp =
    let n = if ltb (length file - off) chunk_size then length file - off else chunk_size in
    let tmp' = tmp ++ take n (drop off file) in
    let rest = tmp' ∷ copy_tail rounds file (off + n) tmp' in
    if ltb off (length file) then rest else []

last_or : Bytes → List Bytes → Bytes
last_or b [] = b
last_or b (c ∷ cs) = last_or c cs

with_tmp : Bytes → List Bytes → List Disk
with_tmp file [] = []
with_tmp file (t ∷ ts) = record { wal = file; tmp = some t } ∷ with_tmp file ts

-- Every state of the disk that `TruncateBefore` goes through, each step taken to succeed: the empty
-- temporary file, the chunks, and the rename; or the emptied log; or nothing.
unfoldable pub truncate_before : Bytes → ℕ → List Disk
unfolding copy_tail last_or with_tmp
truncate_before file at =
    let tmps = copy_tail (length file) file at [] in
    let copied =
      (record { wal = file; tmp = some [] } ∷ with_tmp file tmps)
      ++ record { wal = last_or [] tmps; tmp = none } ∷ [] in
    if at == 0
    then record { wal = file; tmp = none } ∷ []
    else if leb (length file) at
    then record { wal = file; tmp = none } ∷ record { wal = []; tmp = none } ∷ []
    else copied
