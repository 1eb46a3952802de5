-- ===== src/Wal/Replay/Prefix.antt =====
-- Crash recovery: whole records followed by a torn one.
use mathlib.Core.List.{foldl}
use pebble_db.Prelude.{
  ℕ, zero, suc, ◌+◌, ◌<◌, ◌≤◌, ◌≡◌, refl, sym, ap, ◌∙◌, Option, none, some, List, [], ◌∷◌, ◌++◌,
  length, take, drop, arith, length-append, append_assoc, append-nil, drop-append, take-append, All,
  le→ltb,
}
use pebble_db.Bytes.{Bytes}
use pebble_db.Result.{err}
use pebble_db.Codec.{eof}
use pebble_db.Codec.Laws.{read_full-nil}
use pebble_db.Wal.Limits.{ReplayLimits, WalError, read_error, with_defaults}
use pebble_db.Wal.Format.{Record, read_one_record, plain}
use pebble_db.Wal.Format.RoundTrip.{wire, length-wire, Fits, read_one_record-wire}
use pebble_db.Wal.Format.Torn.{read_one_record-torn}
use pebble_db.Wal.Replay.{
  Replayed, stop, after_callback, after_read, replay_loop, replay_from_with_recovery,
}
use pebble_db.Wal.Replay.Steps.{replay_loop-stop, replay_loop-go_on}

-- The bytes of records that were written one after another.
unfoldable pub wires : List Record → Bytes
wires [] = []
wires (r ∷ rs) = wire r ++ wires rs

module _ {S : Type 0} (f : S → Record → S) (limits : ReplayLimits) where
  -- The callback of `Open`, which never fails.
  abbrev pub quiet : S → Record → S × Option WalError
  quiet s r = (f s r, none)

  read_one_record-nil : read_one_record limits [] ≡ err (read_error eof)
  unfolding read_one_record plain
  read_one_record-nil = rw (read_full-nil 4 (omega arith))

  -- What the loop leaves at a torn record, or at the end of the file.
  abbrev pub recovered : ℕ → Bytes → S → Replayed S
  recovered pos file s = record { valid_end = pos; error = none; file = take pos file; state = s }

  after_read-eof :
      (pre : Bytes) (s : S)
      → after_read quiet (length pre) (pre ++ []) s (err (read_error eof))
        ≡ stop (recovered (length pre) (pre ++ []) s)
  unfolding after_read
  after_read-eof pre s =
      ap
        (λ (b : Bytes). stop (record { valid_end = length pre; error = none; file = b; state = s }))
        (append-nil pre ∙ sym (take-append (length pre) pre [] refl))

  loop_at_tail :
      (rec : Record) (k : ℕ) (pre : Bytes) (s : S) (fuel : ℕ)
      → Fits limits rec
      → k < length (wire rec)
      → replay_loop quiet limits (suc fuel) (length pre) (pre ++ take k (wire rec)) s
        ≡ some (recovered (length pre) (pre ++ take k (wire rec)) s)
  unfolding after_read wire
  loop_at_tail rec zero pre s fuel fits h =
      replay_loop-stop quiet limits fuel (length pre) (pre ++ []) s _
        (rw (drop-append (length pre) pre [] refl, read_one_record-nil) (after_read-eof pre s))
  loop_at_tail rec (suc k) pre s fuel fits h =
      replay_loop-stop quiet limits fuel (length pre) (pre ++ take (suc k) (wire rec)) s _ (
        rw (
          drop-append (length pre) pre (take (suc k) (wire rec)) refl,
          read_one_record-torn limits rec fits (suc k) (omega arith) h,
        ))

  replay_loop-wires :
      (recs : List Record) (rec : Record) (k : ℕ) (pre file : Bytes) (s : S) (fuel : ℕ)
      → All (Fits limits) recs
      → Fits limits rec
      → k < length (wire rec)
      → file ≡ pre ++ (wires recs ++ take k (wire rec))
      → length (wires recs) < fuel
      → replay_loop quiet limits fuel (length pre) file s
        ≡ some (recovered (length pre + length (wires recs)) file (foldl f s recs))
  unfolding wires after_read after_callback
  replay_loop-wires recs rec k pre file s zero all fits h e enough = absurd (omega arith)
  replay_loop-wires [] rec k pre file s (suc fuel) all fits h e enough =
      rw (e, (let z : length pre + 0 ≡ length pre = omega arith in z))
        (loop_at_tail rec k pre s fuel fits h)
  replay_loop-wires (r ∷ rs) rec k pre file s (suc fuel) all fits h e enough =
      let tail = wires rs ++ take k (wire rec) in
      let e' : file ≡ pre ++ (wire r ++ tail) =
        e ∙ ap (λ b. pre ++ b) (append_assoc (wire r) (wires rs) (take k (wire rec))) in
      let here : drop (length pre) file ≡ wire r ++ tail =
        ap (drop (length pre)) e' ∙ drop-append (length pre) pre (wire r ++ tail) refl in
      let size = length-append (wire r) (wires rs) in
      let longer : length (pre ++ wire r) ≡ length pre + length (wire r) =
        length-append pre (wire r) in
      let ends : length (pre ++ wire r) + length (wires rs)
          ≡ length pre + length (wire r ++ wires rs) =
        omega (arith, longer, size) in
      replay_loop-go_on quiet limits fuel (length pre) file s (length (pre ++ wire r)) (f s r)
        (rw (here, read_one_record-wire limits r tail all.0, longer))
      ∙ replay_loop-wires rs rec k (pre ++ wire r) file (f s r) fuel all.1 fits h
          (e' ∙ sym (append_assoc pre (wire r) tail)) (omega (arith, length-wire r, size))
      ∙ ap (λ n. some (recovered n file (foldl f s (r ∷ rs)))) ends

  -- A crash in the middle of an append leaves whole records behind the part of the log that is not
  -- replayed, and then some bytes of one more, none or all but one among them. The replay from there
  -- applies exactly the whole records, in order, reports no error, returns the offset behind the
  -- last of them and cuts the file there. All records fit the limits, and the file its own.
  pub replay_recovers :
      (recs : List Record) (rec : Record) (k : ℕ) (pre : Bytes) (s : S)
      → All (Fits limits) recs
      → Fits limits rec
      → k < length (wire rec)
      → with_defaults limits ≡ limits
      → length (pre ++ (wires recs ++ take k (wire rec))) ≤ limits.max_file_size
      → replay_from_with_recovery quiet
          (some (pre ++ (wires recs ++ take k (wire rec))))
          limits
          (length pre)
          s
        ≡ some (record {
          valid_end = length pre + length (wires recs);
          error = none;
          file = pre ++ wires recs;
          state = foldl f s recs;
        })
  unfolding replay_from_with_recovery
  replay_recovers recs rec k pre s all fits h def small =
      let file = pre ++ (wires recs ++ take k (wire rec)) in
      let size = length-append pre (wires recs ++ take k (wire rec)) in
      rw
        (
          def,
          le→ltb limits.max_file_size (length file) small,
          le→ltb (length file) (length pre) (omega (arith, size)),
          replay_loop-wires recs rec k pre file s (length file + 1) all fits h refl
              (omega (arith, size, length-append (wires recs) (take k (wire rec)))),
        )
        (ap
          (λ (b : Bytes). some (record {
            valid_end = length pre + length (wires recs);
            error = none;
            file = b;
            state = foldl f s recs;
          }))
          (ap (take (length pre + length (wires recs)))
              (sym (append_assoc pre (wires recs) (take k (wire rec))))
            ∙ take-append (length pre + length (wires recs)) (pre ++ wires recs) (take k (wire rec))
                (length-append pre (wires recs))))
