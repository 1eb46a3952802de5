-- ===== src/Wal/Replay/Steps.antt =====
-- The replay loop, one round at a time.
use pebble_db.Prelude.{ℕ, suc, ◌≡◌, Option, some, drop, arith}
use pebble_db.Bytes.{Bytes}
use pebble_db.Wal.Limits.{ReplayLimits, WalError}
use pebble_db.Wal.Format.{Record, read_one_record}
use pebble_db.Wal.Replay.{Replayed, stop, go_on, after_read, replay_loop}

module _ {S : Type 0} (fn : S → Record → S × Option WalError) (limits : ReplayLimits) (fuel pos : ℕ)
    (file : Bytes) (s : S) where
  pub replay_loop-stop :
      (x : Replayed S)
      → after_read fn pos file s (read_one_record limits (drop pos file)) ≡ stop x
      → replay_loop fn limits (suc fuel) pos file s ≡ some x
  unfolding replay_loop
  replay_loop-stop x e = ground (arith, e)

  pub replay_loop-go_on :
      (p : ℕ) (t : S)
      → after_read fn pos file s (read_one_record limits (drop pos file)) ≡ go_on p t
      → replay_loop fn limits (suc fuel) pos file s ≡ replay_loop fn limits fuel p file t
  unfolding replay_loop
  replay_loop-go_on p t e = ground (arith, e)
