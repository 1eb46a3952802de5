-- ===== src/Acceptance/Dataset.antt =====
-- dataset/dataset.go: the generator of a workload, and the state that it expects of the database. The
-- texts that `fmt` makes of keys and values, and the draws of the random source, are arguments.
pub mod Agrees
use pebble_db.Prelude.{
  ℕ, zero, suc, ◌+◌, ltb, leb, ◌==◌, if◌then◌else◌, Bool, true, false, Option, none, some, List, [],
  ◌∷◌, length,
}
use pebble_db.Bytes.{Bytes, copy_slice, compare_bytes}
use pebble_db.Bytes.Order.{is_eq}
use pebble_db.Result.{Result, ok, err, ◌>>=◌}
use pebble_db.Wal.Format.{Record}

pub record ValueSnapshot : Type 0 where
  pub value : Option Bytes
  pub tombstone : Bool
  pub version : ℕ

-- `State`, a map with one entry for each key.
abbrev pub State : Type 0
State = List (Bytes × ValueSnapshot)

-- `Get`
unfoldable pub get : State → Bytes → Option ValueSnapshot
get [] key = none
get ((k, s) ∷ m) key = if is_eq (compare_bytes key k) then some s else get m key

-- `m.State[key] = snap`
unfoldable pub set : State → Bytes → ValueSnapshot → State
set [] key snap = (key, snap) ∷ []
set ((k, s) ∷ m) key snap =
    if is_eq (compare_bytes key k) then (k, snap) ∷ m else (k, s) ∷ set m key snap

-- `LiveCount`
pub live_count : State → ℕ
live_count [] = 0
live_count ((k, s) ∷ m) = let rest = live_count m in if s.tombstone then rest else suc rest

-- The generator's fields, with what it formats and draws: the value of a key, the key of an overwrite and
-- its value.
pub record SequentialGenerator : Type 0 where
  pub count : ℕ
  pub overwrite_count : ℕ
  pub tombstone_every : ℕ
  pub fmt_key : ℕ → Bytes
  pub first_value : ℕ → Bytes
  pub drawn_index : ℕ → ℕ
  pub next_value : ℕ → Bytes

-- What has been written through the `LogicalWriter`, the newest record first, and the state expected.
pub record Run : Type 0 where
  pub written : List Record
  pub expected : State

-- `fault` is what the context or the writer answers to a call after so many writes.
pub data GenerateError : Type 0 where
  bad_count : GenerateError
  stopped : ℕ → GenerateError

abbrev pub version_of : Option ValueSnapshot → ℕ
version_of none = 0
version_of (some s) = s.version

abbrev pub unless : {A : Type 0} → Option ℕ → A → Result GenerateError A
unless none a = ok a
unless (some e) a = err (stopped e)

module _ (g : SequentialGenerator) (fault : ℕ → Option ℕ) where
  -- The function `put` of `Generate`.
  unfoldable pub put : Run → Bytes → Bytes → ℕ → Result GenerateError Run
  put r key val version = unless (fault (length r.written)) (record {
    written = record { key = key; value = val; tombstone = false } ∷ r.written;
    expected =
        set r.expected key
          (record { value = copy_slice val; tombstone = false; version = version });
  })

  unfoldable pub delete : Run → Bytes → Result GenerateError Run
  delete r key = unless (fault (length r.written)) (record {
    written = record { key = key; value = []; tombstone = true } ∷ r.written;
    expected =
        set r.expected key (record {
          value = none;
          tombstone = true;
          version = version_of (get r.expected key) + 1;
        });
  })

  -- The three loops, each from its `i`-th turn on, with the turns that are left.
  unfoldable pub fill : ℕ → ℕ → Run → Result GenerateError Run
  unfolding put
  fill zero i r = ok r
  fill (suc left) i r =
      put r (g.fmt_key i) (g.first_value i) 1 >>= λ (r' : Run). fill left (i + 1) r'

  abbrev pub at_least_two : ℕ → ℕ
  at_least_two v = if ltb v 2 then 2 else v

  unfoldable pub overwrite : ℕ → ℕ → Run → Result GenerateError Run
  unfolding put
  overwrite zero i r = ok r
  overwrite (suc left) i r =
      let key = g.fmt_key (g.drawn_index i) in
      put r key (g.next_value i) (at_least_two (version_of (get r.expected key) + 1))
      >>= λ (r' : Run). overwrite left (i + 1) r'

  -- A step of at least one, so that the count of keys is enough turns.
  unfoldable pub bury : ℕ → ℕ → Run → Result GenerateError Run
  unfolding delete
  bury zero i r = ok r
  bury (suc left) i r =
      let later = delete r (g.fmt_key i) >>= λ (r' : Run). bury left (i + g.tombstone_every) r' in
      if ltb i g.count then later else ok r

  -- `Generate`; the last call is the writer's `Sync`.
  unfoldable pub generate : Result GenerateError Run
  unfolding fill overwrite bury
  generate =
      let filled =
        fill g.count 0 (record { written = []; expected = [] })
        >>= (λ (r : Run). overwrite g.overwrite_count 0 r)
        >>= (λ (r : Run). if ltb 0 g.tombstone_every then bury g.count 0 r else ok r)
        >>= (λ (r : Run). unless (fault (length r.written)) r) in
      if leb g.count 0 then err bad_count else filled
