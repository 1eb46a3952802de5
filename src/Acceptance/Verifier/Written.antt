-- ===== src/Acceptance/Verifier/Written.antt =====
-- The generator's writes, and a verification against what it expects.
use pebble_db.Prelude.{ℕ, ◌<◌, ◌≡◌, refl, subst, ◌∙◌, Option, none, some}
use pebble_db.Bytes.{Bytes}
use pebble_db.Result.{ok}
use pebble_db.Iterator.{Entry}
use pebble_db.Iterator.Merge.Lists.{find}
use pebble_db.Db.Get.Layers.{batch_entries}
use pebble_db.Acceptance.Dataset.{ValueSnapshot, get, SequentialGenerator, Run, generate}
use pebble_db.Acceptance.Dataset.Agrees.{entry_at, generate-Agrees}
use pebble_db.Acceptance.Verifier.{VerificationReport, Reader}
use pebble_db.Acceptance.Verifier.Reads.{Answers}
use pebble_db.Acceptance.Verifier.Engine.{World, verify}
use pebble_db.Acceptance.Verifier.Sound.{verify-Answers}

snapshot_of :
    (key : Bytes) (o : Option ValueSnapshot) (e : Entry)
    → entry_at key o ≡ some e
    → (s : ValueSnapshot) × (o ≡ some s) × (s.tombstone ≡ e.tombstone) × (s.value ≡ e.value)
snapshot_of key none e h = cc h
snapshot_of key (some s) e h =
    let same : record { key = key; value = s.value; tombstone = s.tombstone } ≡ e = cc h in
    (s, refl, (λ i. (same i).tombstone), (λ i. (same i).value))

-- Where a verification against the state that a workload expects returns no error, every reopened
-- database answers for each key that was written what the newest write of the key made of it.
pub verify-Written :
    (g : SequentialGenerator) (fault : ℕ → Option ℕ) (run : Run) (w : World)
    (report : VerificationReport) (round : ℕ) (key : Bytes) (newest : Entry)
    → generate g fault ≡ ok run
    → w.oracle ≡ ok run.expected
    → verify w ≡ ok report
    → round < w.idempotent_reopens
    → find key (batch_entries run.written) ≡ some newest
    → (reader : Reader) × ((w.reopen round).database ≡ ok reader)
      × Answers newest.tombstone newest.value (reader key)
verify-Written g fault run w report round key newest made oracle passed less written =
    let (s, at, tombstone, value) =
      snapshot_of key (get run.expected key) newest
        (generate-Agrees g fault key run made ∙ written) in
    let (reader, opened, answers) =
      verify-Answers w report run.expected round key s passed oracle less at in
    (
      reader,
      opened,
      subst (λ v. Answers newest.tombstone v (reader key)) value
          (subst (λ t. Answers t s.value (reader key)) tombstone answers),
    )
