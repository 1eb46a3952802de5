-- ===== src/Wal/Log/Append.antt =====
-- What is in the log after a batch, whatever the operating system answers.
use mathlib.Core.List.{foldl}
use pebble_db.Prelude.{
  ℕ, ◌+◌, ◌≤◌, ◌<◌, ◌≡◌, refl, sym, ap, ◌∙◌, Option, none, some, List, [], ◌∷◌, ◌++◌, length, take,
  arith, append_assoc, append-nil, All, All-append_left, All-append, take_all, subst, Option-cases,
  ◌⊎◌, inl, inr,
}
use native.Mathlib.Decide.{dec_lt}
use pebble_db.Bytes.{Bytes}
use pebble_db.Wal.Limits.{ReplayLimits, WalError, with_defaults}
use pebble_db.Wal.Format.{Record}
use pebble_db.Wal.Format.RoundTrip.{wire, length-wire, Fits, encode_record-wire}
use pebble_db.Wal.Replay.{replay_from_with_recovery}
use pebble_db.Wal.Replay.Prefix.{wires, quiet, replay_recovers}
use pebble_db.Wal.Log.{
  Answer, written, failed, Wal, next_answer, later_answers, append_all, append_batch,
}

wires-append : (a b : List Record) → wires (a ++ b) ≡ wires a ++ wires b
unfolding wires
wires-append [] b = refl
wires-append (r ∷ a) b =
    ap (λ x. wire r ++ x) (wires-append a b) ∙ sym (append_assoc (wire r) (wires a) (wires b))

-- The log `before` with whole records of the batch behind it and then a part of one that fits.
pub record Appended (limits : ReplayLimits) (before : Bytes) (recs : List Record) (after : Bytes)
    : Type 0 where
  pub done : List Record
  pub rest : List Record
  pub torn : Record
  pub kept : ℕ
  pub batch : recs ≡ done ++ rest
  pub torn_fits : Fits limits torn
  pub partial : kept < length (wire torn)
  pub bytes : after ≡ before ++ (wires done ++ take kept (wire torn))

module _ (spare : Record) where
  nothing_done :
      (limits : ReplayLimits) (before : Bytes) (recs : List Record)
      → Fits limits spare
      → Appended limits before recs before
  unfolding wires
  nothing_done limits before recs fits = record {
    done = [];
    rest = recs;
    torn = spare;
    kept = 0;
    batch = refl;
    torn_fits = fits;
    partial = omega (arith, length-wire spare);
    bytes = sym (append-nil before);
  }

  one_more :
      (limits : ReplayLimits) (before after : Bytes) (r : Record) (rs : List Record)
      → Appended limits (before ++ wire r) rs after
      → Appended limits before (r ∷ rs) after
  unfolding wires
  one_more limits before after r rs a = record {
    done = r ∷ a.done;
    rest = a.rest;
    torn = a.torn;
    kept = a.kept;
    batch = ap (◌∷◌ r) a.batch;
    torn_fits = a.torn_fits;
    partial = a.partial;
    bytes =
        a.bytes
        ∙ append_assoc before (wire r) (wires a.done ++ take a.kept (wire a.torn))
        ∙ ap (λ b. before ++ b)
            (sym (append_assoc (wire r) (wires a.done) (take a.kept (wire a.torn))));
  }

  -- A write that fails leaves some bytes of its record, perhaps all of them.
  failed_write :
      (limits : ReplayLimits) (before : Bytes) (r : Record) (rs : List Record) (n : ℕ)
      → Fits limits spare
      → Fits limits r
      → Appended limits before (r ∷ rs) (before ++ take n (wire r))
  unfolding wires
  failed_write limits before r rs n spare_fits fits = elim (dec_lt n (length (wire r))) [
    | yes p ↦ record {
      done = [];
      rest = r ∷ rs;
      torn = r;
      kept = n;
      batch = refl;
      torn_fits = fits;
      partial = p;
      bytes = refl;
    }
    | no p ↦ one_more limits before (before ++ take n (wire r)) r rs (
        rw (take_all n (wire r) (omega arith))
          (nothing_done limits (before ++ wire r) rs spare_fits))
  ]

-- A record that is written whole.
append_all-cons :
    (w : Wal) (r : Record) (rs : List Record) (as' : List Answer)
    → Fits w.limits r
    → next_answer as' ≡ written
    → append_all w (r ∷ rs) as'
      ≡ append_all (record w { file = w.file ++ wire r }) rs (later_answers as')
unfolding append_all
append_all-cons w r rs as' fits e = rw (encode_record-wire w.limits r fits, e)

append_all-failed :
    (w : Wal) (r : Record) (rs : List Record) (as' : List Answer) (n e : ℕ)
    → Fits w.limits r
    → next_answer as' ≡ failed n e
    → append_all w (r ∷ rs) as'
      ≡ (record w { file = w.file ++ take n (wire r) }, some (WalError.callback e))
unfolding append_all
append_all-failed w r rs as' n e fits h = rw (encode_record-wire w.limits r fits, h)

Answer-cases : (a : Answer) → (a ≡ written) ⊎ ((n : ℕ) × (e : ℕ) × (a ≡ failed n e))
Answer-cases written = inl refl
Answer-cases (failed n e) = inr (n, e, refl)

append_all-Appended :
    (spare : Record) (w : Wal) (recs : List Record) (as' : List Answer)
    → Fits w.limits spare
    → All (Fits w.limits) recs
    → Appended w.limits w.file recs (append_all w recs as').0.file
append_all-Appended spare w [] as' spare_fits all =
    unfold append_all in nothing_done spare w.limits w.file [] spare_fits
append_all-Appended spare w (r ∷ rs) as' spare_fits all = elim (Answer-cases (next_answer as')) [
  | inl e ↦ rw (append_all-cons w r rs as' all.0 e) (
      one_more spare w.limits w.file _ r rs (
        append_all-Appended spare (record w { file = w.file ++ wire r }) rs (later_answers as')
          spare_fits all.1))
  | inr (n, code, e) ↦
      rw (append_all-failed w r rs as' n code all.0 e)
        (failed_write spare w.limits w.file r rs n spare_fits all.0)
]

-- If no write fails, the whole batch is in the file.
append_all-done :
    (w : Wal) (recs : List Record) (as' : List Answer)
    → All (Fits w.limits) recs
    → (append_all w recs as').1 ≡ none
    → (append_all w recs as').0.file ≡ w.file ++ wires recs
unfolding wires
append_all-done w [] as' all h = unfold append_all in sym (append-nil w.file)
append_all-done w (r ∷ rs) as' all h = elim (Answer-cases (next_answer as')) [
  | inl e ↦
      let step = append_all-cons w r rs as' all.0 e in
      rw step (
        append_all-done (record w { file = w.file ++ wire r }) rs (later_answers as') all.1
          (rw step at h)
        ∙ append_assoc w.file (wire r) (wires rs))
  | inr (n, code, e) ↦ cc (ap (λ p. p.1) (append_all-failed w r rs as' n code all.0 e))
]

module _ (w : Wal) (r : Record) (rs : List Record) (as' : List Answer)
    (sync : Option WalError) where
  abbrev result : Wal × Option WalError
  result = append_batch w (r ∷ rs) as' sync

  file-append_batch : result.0.file ≡ (append_all w (r ∷ rs) as').0.file
  unfolding append_batch
  file-append_batch = ground arith

  append_batch-eq-none : result.1 ≡ none → (append_all w (r ∷ rs) as').1 ≡ none
  unfolding append_batch
  append_batch-eq-none h = ground arith

  batch_or_part :
      All (Fits w.limits) (r ∷ rs)
      → (a : Appended w.limits w.file (r ∷ rs) result.0.file) × (((e : WalError) × (result.1
              ≡ some e))
          ⊎ (a.done ≡ r ∷ rs))
  batch_or_part all = elim (Option-cases result.1) [
    | inl e ↦ (
      record {
        done = r ∷ rs;
        rest = [];
        torn = r;
        kept = 0;
        batch = sym (append-nil (r ∷ rs));
        torn_fits = all.0;
        partial = omega (arith, length-wire r);
        bytes =
            file-append_batch
            ∙ append_all-done w (r ∷ rs) as' all (append_batch-eq-none e)
            ∙ ap (λ b. w.file ++ b) (sym (append-nil (wires (r ∷ rs))));
      },
      inr refl,
    )
    | inr (code, e) ↦
        (rw file-append_batch (append_all-Appended r w (r ∷ rs) as' all.0 all), inl (code, e))
  ]

  -- The log has only whole records from some offset on, none of which an earlier write has torn. After
  -- a batch is appended to it, whatever the operating system answered to each of the writes and to the
  -- sync, a replay from that offset applies all of those records and then a leading part of the batch, in
  -- order, and leaves a log that ends with the last record of it. If the batch was reported as written,
  -- that part is the whole batch. The records fit the limits and the file its own.
  pub append_batch_recovers :
      {S : Type 0} (f : S → Record → S) (s : S) (pre : Bytes) (old : List Record)
      → w.file ≡ pre ++ wires old
      → All (Fits w.limits) old
      → All (Fits w.limits) (r ∷ rs)
      → with_defaults w.limits ≡ w.limits
      → length result.0.file ≤ w.limits.max_file_size
      → (done : List Record) × (rest : List Record) × (r ∷ rs ≡ done ++ rest)
        × (replay_from_with_recovery (quiet f w.limits) (some result.0.file) w.limits (length pre) s
            ≡ some (record {
              valid_end = length pre + length (wires (old ++ done));
              error = none;
              file = pre ++ wires (old ++ done);
              state = foldl f s (old ++ done);
            }))
        × (((e : WalError) × (result.1 ≡ some e)) ⊎ (done ≡ r ∷ rs))
  append_batch_recovers f s pre old whole_log old_fits all def small =
      let (a, whole) = batch_or_part all in
      let fits : All (Fits w.limits) a.done =
        All-append_left (Fits w.limits) a.done a.rest (subst (All (Fits w.limits)) a.batch all) in
      let recs_fit = All-append (Fits w.limits) old a.done old_fits fits in
      let bytes : result.0.file ≡ pre ++ (wires (old ++ a.done) ++ take a.kept (wire a.torn)) =
        a.bytes
        ∙ ap (λ b. b ++ (wires a.done ++ take a.kept (wire a.torn))) whole_log
        ∙ append_assoc pre (wires old) (wires a.done ++ take a.kept (wire a.torn))
        ∙ ap (λ b. pre ++ b)
            (sym (append_assoc (wires old) (wires a.done) (take a.kept (wire a.torn)))
              ∙ ap (λ b. b ++ take a.kept (wire a.torn)) (sym (wires-append old a.done))) in
      let bound = subst (λ b. length b ≤ w.limits.max_file_size) bytes small in
      (
        a.done,
        a.rest,
        a.batch,
        rw bytes (
            replay_recovers f w.limits (old ++ a.done) a.torn a.kept pre s recs_fit a.torn_fits
              a.partial def bound),
        whole,
      )
