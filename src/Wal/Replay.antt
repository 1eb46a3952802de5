-- ===== src/Wal/Replay.antt =====
-- `ReplayFromWithRecovery` of internal/wal/wal.go over the bytes of the file. The calls to the
-- operating system that it makes on an open file are taken to succeed.
pub mod Steps
pub mod Recovery
pub mod Prefix
use pebble_db.Prelude.{
  ℕ, zero, suc, ◌+◌, ltb, if◌then◌else◌, Option, none, some, [], length, take, drop,
}
use pebble_db.Bytes.{Bytes}
use pebble_db.Result.{Result, ok, err}
use pebble_db.Codec.{eof, unexpected_eof}
use pebble_db.Wal.Limits.{ReplayLimits, WalError, read_error, wal_too_large, with_defaults}
use pebble_db.Wal.Format.{Record, read_one_record}

-- The returned offset and error, the file as it is left, and the state that the callback works on.
pub record Replayed (S : Type 0) : Type 0 where
  pub valid_end : ℕ
  pub error : Option WalError
  pub file : Bytes
  pub state : S

-- One round of the loop ends the replay, or goes on from an offset with a new state.
pub data Round (S : Type 0) : Type 0 where
  stop : Replayed S → Round S
  go_on : ℕ → S → Round S

pub after_callback : {S : Type 0} → ℕ → Bytes → S × Option WalError → Round S
after_callback valid_end file (s, none) = go_on valid_end s
after_callback valid_end file (s, some e) =
    stop (record { valid_end = valid_end; error = some e; file = file; state = s })

module _ {S : Type 0} (fn : S → Record → S × Option WalError) where
  pub after_read : ℕ → Bytes → S → Result WalError (Record × ℕ × Bytes) → Round S
  after_read pos file s (ok (rec, n, _)) = after_callback (pos + n) file (fn s rec)
  after_read pos file s (err (read_error eof)) =
      stop (record { valid_end = pos; error = none; file = file; state = s })
  after_read pos file s (err (read_error unexpected_eof)) =
      stop (record { valid_end = pos; error = none; file = take pos file; state = s })
  after_read pos file s (err e) =
      stop (record { valid_end = pos; error = some e; file = file; state = s })

  -- Every round but the last reads a byte at least, so one round more than the file has bytes is
  -- enough. `none` is the fuel running out.
  unfoldable pub replay_loop : ReplayLimits → ℕ → ℕ → Bytes → S → Option (Replayed S)
  unfolding after_read after_callback
  replay_loop limits zero pos file s = none
  replay_loop limits (suc fuel) pos file s =
      elim (after_read pos file s (read_one_record limits (drop pos file))) [
        | stop r ↦ some r
        | go_on pos' s' ↦ replay_loop limits fuel pos' file s'
      ]

  -- `none` for the file is a file that does not exist, for which nothing is done.
  unfoldable pub replay_from_with_recovery :
      Option Bytes → ReplayLimits → ℕ → S → Option (Replayed S)
  unfolding replay_loop
  replay_from_with_recovery none limits start s =
      some (record { valid_end = 0; error = none; file = []; state = s })
  replay_from_with_recovery (some file) limits start s =
      let l = with_defaults limits in
      if ltb l.max_file_size (length file)
      then some (record { valid_end = 0; error = some wal_too_large; file = file; state = s })
      else replay_loop l (length file + 1) (if ltb (length file) start then length file else start)
          file s
