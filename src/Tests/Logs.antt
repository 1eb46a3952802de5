-- ===== src/Tests/Logs.antt =====
-- The log of internal/wal at concrete records.
use mathlib.Core.List.{foldl}
use pebble_db.Prelude.{
  ℕ, ◌+◌, ◌≤◌, ◌≡◌, refl, none, some, List, [], ◌∷◌, ◌++◌, true, false, length, take, arith, All,
  ◌⊎◌, min,
}
use pebble_db.Result.{ok, err}
use pebble_db.Codec.{unexpected_eof, put_uint32}
use pebble_db.Wal.Limits.{
  WalError, read_error, default_replay_limits, with_defaults, validate_record,
}
use pebble_db.Wal.Format.{Record, read_one_record, encode_record, body}
use pebble_db.Wal.Format.RoundTrip.{wire, length-wire, Fits, read_one_record-wire}
use pebble_db.Wal.Format.Torn.{read_one_record-torn}
use pebble_db.Wal.Replay.{replay_from_with_recovery}
use pebble_db.Wal.Replay.Prefix.{wires, quiet, replay_recovers}
use pebble_db.Wal.Replay.Recovery.{Ended, replay_ends}
use pebble_db.Wal.Log.{
  Wal, written, failed, append_batch, append_all, append_record_locked, write, write_encoded,
  next_answer, later_answers, and_then, truncate_before,
}
use pebble_db.Wal.Log.Append.{append_batch_recovers}
use pebble_db.Wal.Log.Truncate.{IsOldOrCut, truncate_before-atomic}

abbrev pub apple : Record
apple = record { key = 97 ∷ []; value = 1 ∷ 2 ∷ []; tombstone = false }

abbrev pub pear : Record
pear = record { key = 112 ∷ []; value = []; tombstone = true }

abbrev log : Wal
log = record { file = []; limits = default_replay_limits }

pub apple-Fits : Fits default_replay_limits apple
apple-Fits = record {
  key_fits = omega arith;
  value_fits = omega arith;
  valid = unfold validate_record in refl;
}

pub pear-Fits : Fits default_replay_limits pear
pear-Fits = record {
  key_fits = omega arith;
  value_fits = omega arith;
  valid = unfold validate_record in refl;
}

pub defaults : with_defaults default_replay_limits ≡ default_replay_limits
unfolding with_defaults
defaults = refl

-- The state that the replay counts up.
abbrev count : ℕ → Record → ℕ
count n r = n + 1

replay_recovers_example :
    replay_from_with_recovery
      (quiet count default_replay_limits)
      (some ([] ++ (wires (apple ∷ pear ∷ []) ++ take 5 (wire apple))))
      default_replay_limits
      0
      0
    ≡ some (record {
      valid_end = 0 + length (wires (apple ∷ pear ∷ []));
      error = none;
      file = [] ++ wires (apple ∷ pear ∷ []);
      state = foldl count 0 (apple ∷ pear ∷ []);
    })
unfolding body put_uint32
replay_recovers_example =
    replay_recovers count default_replay_limits (apple ∷ pear ∷ []) apple 5 [] 0
      (apple-Fits, (pear-Fits, tt)) apple-Fits (omega (arith, length-wire apple)) defaults
      (unfold wires wire in omega arith)

abbrev started : Wal
started = record { file = [] ++ wires (apple ∷ []); limits = default_replay_limits }

small :
    length (append_batch started (apple ∷ pear ∷ []) (written ∷ failed 7 1 ∷ []) none).0.file
    ≤ default_replay_limits.max_file_size
unfolding append_batch append_all append_record_locked write write_encoded next_answer later_answers
    and_then encode_record body validate_record put_uint32 wires wire
small = omega arith

append_batch_recovers_example :
    (done : List Record) × (rest : List Record) × (apple ∷ pear ∷ [] ≡ done ++ rest)
    × (replay_from_with_recovery
          (quiet count default_replay_limits)
          (some (append_batch started (apple ∷ pear ∷ []) (written ∷ failed 7 1 ∷ []) none).0.file)
          default_replay_limits
          0
          0
        ≡ some (record {
          valid_end = 0 + length (wires (apple ∷ [] ++ done));
          error = none;
          file = [] ++ wires (apple ∷ [] ++ done);
          state = foldl count 0 (apple ∷ [] ++ done);
        }))
    × (((e : WalError) × ((append_batch started
              (apple ∷ pear ∷ [])
              (written ∷ failed 7 1 ∷ [])
              none).1
            ≡ some e))
        ⊎ (done ≡ apple ∷ pear ∷ []))
append_batch_recovers_example =
    append_batch_recovers started apple (pear ∷ []) (written ∷ failed 7 1 ∷ []) none count 0 []
      (apple ∷ []) refl (apple-Fits, tt) (apple-Fits, (pear-Fits, tt)) defaults small

replay_ends_example : Ended (1 ∷ 2 ∷ []) (min 0 2) (
    replay_from_with_recovery
      (quiet count default_replay_limits)
      (some (1 ∷ 2 ∷ []))
      default_replay_limits
      0
      0)
replay_ends_example =
    replay_ends (quiet count default_replay_limits) (1 ∷ 2 ∷ []) default_replay_limits 0 0
      (unfold with_defaults in omega arith)

read_one_record-wire_example :
    read_one_record default_replay_limits (wire apple ++ 7 ∷ [])
    ≡ ok (apple, length (wire apple), 7 ∷ [])
read_one_record-wire_example = read_one_record-wire default_replay_limits apple (7 ∷ []) apple-Fits

read_one_record-torn_example :
    read_one_record default_replay_limits (take 6 (wire apple)) ≡ err (read_error unexpected_eof)
read_one_record-torn_example =
    read_one_record-torn default_replay_limits apple apple-Fits 6 (omega arith)
      (omega (arith, length-wire apple))

truncate_before-atomic_example :
    All (IsOldOrCut (1 ∷ 2 ∷ 3 ∷ []) 2) (truncate_before (1 ∷ 2 ∷ 3 ∷ []) 2)
truncate_before-atomic_example = truncate_before-atomic (1 ∷ 2 ∷ 3 ∷ []) 2
