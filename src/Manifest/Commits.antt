-- ===== src/Manifest/Commits.antt =====
-- The log in memory and the log on disk: a reopened manifest has the live set that the commits made.
use pebble_db.Prelude.{
  ℕ, ◌+◌, ◌^◌, ◌<◌, ◌≤◌, ◌≡◌, refl, sym, ap, ◌∙◌, some, List, [], ◌∷◌, ◌++◌, length, take, All,
  All-append, arith, append_assoc, append-nil, length-append,
}
use mathlib.Core.List.{foldl, foldl-append}
use pebble_db.Bytes.{Bytes}
use pebble_db.Result.{ok}
use pebble_db.Manifest.{
  Log, append, synced, write_failed, append_new_file, append_set_file_set, insert_all, sort,
  encode_new_file, encode_set_file_set, replay,
}
use pebble_db.Manifest.Records.{
  Edit, new_file, set_file_set, payload_of, edited, IsEdit, length-encode_record,
}
use pebble_db.Manifest.Replay.{entry_of, entries_of, replay-entries}

-- The file holds some edits, whole, and memory what they make.
pub record IsRecorded (l : Log) : Type 0 where
  pub edits : List Edit
  pub good : All IsEdit edits
  pub file : l.file ≡ entries_of edits
  pub live : l.live_set ≡ foldl edited [] edits
  pub count : l.record_count ≡ length edits

entries_of-append : (a b : List Edit) → entries_of (a ++ b) ≡ entries_of a ++ entries_of b
unfolding entries_of
entries_of-append [] b = refl
entries_of-append (e ∷ a) b =
    ap (λ x. entry_of e ++ x) (entries_of-append a b)
    ∙ sym (append_assoc (entry_of e) (entries_of a) (entries_of b))

append-IsRecorded :
    (l : Log) (e : Edit)
    → IsEdit e
    → IsRecorded l
    → IsRecorded (append l (entry_of e) (edited l.live_set e) synced).0
unfolding append
append-IsRecorded l e h r = record {
  edits = r.edits ++ e ∷ [];
  good = All-append IsEdit r.edits (e ∷ []) r.good (h, tt);
  file =
      ap (λ b. b ++ entry_of e) r.file
      ∙ sym (
          entries_of-append r.edits (e ∷ [])
          ∙ ap (λ b. entries_of r.edits ++ b) (unfold entries_of in append-nil (entry_of e)));
  live = ap (λ s. edited s e) r.live ∙ sym (foldl-append edited [] r.edits (e ∷ []));
  count = ap (λ n. n + 1) r.count ∙ omega (arith, length-append r.edits (e ∷ []));
}

log_of :
    (l : Log) (file : Bytes) (live : List ℕ) (count : ℕ)
    → l.file ≡ file
    → l.live_set ≡ live
    → l.record_count ≡ count
    → record { file = file; live_set = live; record_count = count } ≡ l
log_of l file live count f v c = rw (← f, ← v, ← c) refl

-- A recorded log with a part of one more record behind it is replayed to itself.
replay-IsRecorded :
    (l : Log) (last : Edit) (k : ℕ)
    → IsRecorded l
    → IsEdit last
    → k < length (entry_of last)
    → replay (l.file ++ take k (entry_of last)) ≡ some (ok l)
replay-IsRecorded l last k r h short =
    ap (λ b. replay (b ++ take k (entry_of last))) r.file
    ∙ replay-entries r.edits last k r.good h short
    ∙ ap (λ x. some (ok x))
        (log_of l (entries_of r.edits) (foldl edited [] r.edits) (length r.edits) r.file r.live
          r.count)

replay-whole : (l : Log) → IsRecorded l → replay l.file ≡ some (ok l)
replay-whole l r =
    ap replay (sym (append-nil l.file))
    ∙ replay-IsRecorded l (new_file 0) 0 r (omega arith)
        (omega (arith, length-encode_record (payload_of (new_file 0))))

-- In a manifest whose file is whole records, with no torn one left by an earlier write, a commit of a new
-- table is whole or nothing: if it is synced, reopening the manifest gives the log
-- with the new id in its live set; if it fails after a part of its record, reopening gives the log
-- before it.
pub append_new_file-reopens :
    (l : Log) (id n e : ℕ)
    → IsRecorded l
    → id < 2 ^ 64
    → n < length (encode_new_file id)
    → (replay (append_new_file l id synced).0.file ≡ some (ok (append_new_file l id synced).0))
      × (replay (append_new_file l id (write_failed n e)).0.file ≡ some (ok l))
unfolding append_new_file append encode_new_file
append_new_file-reopens l id n e r h short = (
  replay-whole _ (append-IsRecorded l (new_file id) h r),
  replay-IsRecorded l (new_file id) n r h short,
)

-- Whatever tables are listed, a synced replacement of the live set is what reopening gives: the new
-- list without the old one. There are at most 2 ^ 28 ids.
pub append_set_file_set-reopens :
    (l : Log) (ids : List ℕ)
    → IsRecorded l
    → All (λ (id : ℕ). id < 2 ^ 64) (sort ids)
    → length (sort ids) ≤ 2 ^ 28
    → (replay (append_set_file_set l ids synced).0.file
        ≡ some (ok (append_set_file_set l ids synced).0))
      × ((append_set_file_set l ids synced).0.live_set ≡ insert_all (sort ids) [])
unfolding append_set_file_set append encode_set_file_set
append_set_file_set-reopens l ids r small few =
    (replay-whole _ (append-IsRecorded l (set_file_set (sort ids)) (small, few) r), refl)
