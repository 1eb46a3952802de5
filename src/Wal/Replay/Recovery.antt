-- ===== src/Wal/Replay/Recovery.antt =====
-- The replay ends for every file, whatever bytes it holds.
use pebble_db.Prelude.{
  ℕ, zero, suc, ◌+◌, ◌-◌, ◌<◌, ◌≤◌, ◌≡◌, refl, Option, none, some, length, take, drop, arith,
  length-drop, ltb, if◌then◌else◌, ◌⊎◌, inl, inr, min, le→ltb,
}
use pebble_db.Bytes.{Bytes}
use pebble_db.Result.{Result, ok, err}
use pebble_db.Wal.Limits.{ReplayLimits, WalError, with_defaults}
use pebble_db.Wal.Format.{Record, read_one_record}
use pebble_db.Wal.Format.Size.{read_one_record-Took}
use pebble_db.Wal.Replay.Steps.{replay_loop-stop, replay_loop-go_on}
use pebble_db.Wal.Replay.{
  Replayed, Round, stop, go_on, after_callback, after_read, replay_loop, replay_from_with_recovery,
}

-- What a finished replay leaves: an offset inside the file, and the file whole or cut there.
abbrev pub Ended : {S : Type 0} → Bytes → ℕ → Option (Replayed S) → Type 0
Ended file pos none = ⊥
Ended file pos (some r) =
    (pos ≤ r.valid_end)
    × (r.valid_end ≤ length file)
    × ((r.file ≡ file) ⊎ (r.file ≡ take r.valid_end file))

Round-cases :
    {S : Type 0} (r : Round S)
    → ((x : Replayed S) × (r ≡ stop x)) ⊎ ((p : ℕ) × (t : S) × (r ≡ go_on p t))
Round-cases (stop x) = inl (x, refl)
Round-cases (go_on p t) = inr (p, t, refl)

Ended-le :
    {S : Type 0} (file : Bytes) (pos p : ℕ) (r : Option (Replayed S))
    → pos ≤ p
    → Ended file p r
    → Ended file pos r
Ended-le file pos p none h e = e
Ended-le file pos p (some r) h e = (omega arith, e.1, e.2)

start_eq : (n start : ℕ) → (if ltb n start then n else start) ≡ min start n
start_eq n start = ground arith

module _ {S : Type 0} (fn : S → Record → S × Option WalError) where
  go_on_of_read :
      (pos : ℕ) (file : Bytes) (s : S) (r : Result WalError (Record × ℕ × Bytes)) (p : ℕ) (t : S)
      → after_read fn pos file s r ≡ go_on p t
      → (v : Record × ℕ × Bytes) × (r ≡ ok v) × (p ≡ pos + v.1)
  unfolding after_read after_callback
  go_on_of_read pos file s (ok v) p t h = (v, refl, ground arith)
  go_on_of_read pos file s (err e) p t h = absurd (ground arith)

  -- A round that ends the replay, at a read that took no more than the file has.
  stop_of_read :
      (pos : ℕ) (file : Bytes) (s : S) (r : Result WalError (Record × ℕ × Bytes)) (x : Replayed S)
      → pos ≤ length file
      → ((v : Record × ℕ × Bytes) → r ≡ ok v → pos + v.1 ≤ length file)
      → after_read fn pos file s r ≡ stop x
      → Ended file pos (some x)
  unfolding after_read after_callback
  stop_of_read pos file s (ok v) x h fits e = ground (arith, fits v refl)
  stop_of_read pos file s (err e) x h fits e' = ground arith

  replay_loop-ends :
      (limits : ReplayLimits) (fuel pos : ℕ) (file : Bytes) (s : S)
      → pos ≤ length file
      → length file - pos < fuel
      → Ended file pos (replay_loop fn limits fuel pos file s)
  replay_loop-ends limits zero pos file s h f = absurd (omega arith)
  replay_loop-ends limits (suc fuel) pos file s h f =
      let read = read_one_record limits (drop pos file) in
      let fits : (v : Record × ℕ × Bytes) → read ≡ ok v → pos + v.1 ≤ length file = λ v e.
        omega (arith, read_one_record-Took limits (drop pos file) v e, length-drop pos file) in
      elim (Round-cases (after_read fn pos file s read)) [
        | inl (x, e) ↦
            rw (replay_loop-stop fn limits fuel pos file s x e)
              (stop_of_read pos file s read x h fits e)
        | inr (p, t, e) ↦
            let (v, got, at) = go_on_of_read pos file s read p t e in
            let took = read_one_record-Took limits (drop pos file) v got in
            let more =
              replay_loop-ends limits fuel p file t (omega (arith, fits v got))
                (omega (arith, fits v got)) in
            rw (replay_loop-go_on fn limits fuel pos file s p t e)
              (Ended-le file pos p (replay_loop fn limits fuel p file t) (omega arith) more)
      ]

  -- For every file within the size limit, whatever bytes it holds, and every start offset, the
  -- replay ends within its fuel. The offset that it returns lies between the start (or the end of
  -- the file, if that is nearer) and the end of the file, and the file is left as it was or cut at
  -- that offset.
  pub replay_ends :
      (file : Bytes) (limits : ReplayLimits) (start : ℕ) (s : S)
      → length file ≤ (with_defaults limits).max_file_size
      → Ended file
          (min start (length file))
          (replay_from_with_recovery fn (some file) limits start s)
  unfolding replay_from_with_recovery
  replay_ends file limits start s small =
      rw
        (
          le→ltb (with_defaults limits).max_file_size (length file) small,
          start_eq (length file) start,
        )
        (replay_loop-ends (with_defaults limits) (length file + 1) (min start (length file)) file s
          (omega arith) (omega arith))
