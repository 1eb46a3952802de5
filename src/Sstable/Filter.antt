-- ===== src/Sstable/Filter.antt =====
-- The Bloom filter that a writer fills with the keys of a table.
use pebble_db.Prelude.{
  ◌<◌, ◌≡◌, refl, sym, ◌∙◌, subst, true, false, Bool-cases, inl, inr, none, some, List, [], ◌∷◌,
  arith, ◌==◌,
}
use pebble_db.Bytes.{Bytes, compare_bytes}
use pebble_db.Bytes.Order.{is_eq, eq_of_is_eq}
use pebble_db.Bloom.{Filter, add, may_contain, fnv64a, add_loop}
use pebble_db.Bloom.Member.{IsWhole, add_loop-Keeps, may_loop-Keeps, may_contain-add}
use pebble_db.Iterator.{Entry}
use pebble_db.Iterator.Merge.Lists.{find}
use pebble_db.Sstable.Writer.Layout.{filled}

-- What stays of a filter when keys are added.
pub record Same (f f' : Filter) : Type 0 where
  pub whole : IsWhole f'
  pub m : f'.m ≡ f.m
  pub k : f'.k ≡ f.k

add-Same : (f : Filter) (key : Bytes) → IsWhole f → 0 < f.m → Same f (add f key)
unfolding add
add-Same f key w pos =
    let nonzero : (f.m == 0) ≡ false = ground (arith, pos) in
    let ((bytes, size), kept) =
      add_loop-Keeps f.m (fnv64a key) pos f.k 0 f.bits (w.bytes, w.size) in
    rw nonzero (record { whole = record { bytes = bytes; size = size }; m = refl; k = refl })

add-kept :
    (f : Filter) (key other : Bytes)
    → IsWhole f
    → 0 < f.m
    → may_contain (some f) key ≡ true
    → may_contain (some (add f other)) key ≡ true
unfolding add may_contain
add-kept f key other w pos h =
    let nonzero : (f.m == 0) ≡ false = ground (arith, pos) in
    let (sized, kept) = add_loop-Keeps f.m (fnv64a other) pos f.k 0 f.bits (w.bytes, w.size) in
    rw (nonzero, nonzero)
      (may_loop-Keeps f.m (fnv64a key) pos f.k 0 f.bits (add_loop f.m (fnv64a other) 0 f.k f.bits)
        kept (rw nonzero at h))

pub filled-Same : (f : Filter) (es : List Entry) → IsWhole f → 0 < f.m → Same f (filled f es)
unfolding filled
filled-Same f [] w pos = record { whole = w; m = refl; k = refl }
filled-Same f (e ∷ es) w pos =
    let once = add-Same f e.key w pos in
    let more = filled-Same (add f e.key) es once.whole (omega (arith, once.m)) in
    record { whole = more.whole; m = more.m ∙ once.m; k = more.k ∙ once.k }

filled-kept :
    (f : Filter) (es : List Entry) (key : Bytes)
    → IsWhole f
    → 0 < f.m
    → may_contain (some f) key ≡ true
    → may_contain (some (filled f es)) key ≡ true
unfolding filled
filled-kept f [] key w pos h = h
filled-kept f (e ∷ es) key w pos h =
    let once = add-Same f e.key w pos in
    filled-kept (add f e.key) es key once.whole (omega (arith, once.m))
      (add-kept f key e.key w pos h)

-- A key that the filter refuses is in none of the entries.
pub filled-skips :
    (f : Filter) (es : List Entry) (key : Bytes)
    → IsWhole f
    → 0 < f.m
    → may_contain (some (filled f es)) key ≡ false
    → find key es ≡ none
unfolding filled find
filled-skips f [] key w pos h = refl
filled-skips f (e ∷ es) key w pos h =
    let once = add-Same f e.key w pos in
    let pos' : 0 < (add f e.key).m = omega (arith, once.m) in
    elim (Bool-cases (is_eq (compare_bytes key e.key))) [
      | inr other ↦ rw other (filled-skips (add f e.key) es key once.whole pos' h)
      | inl here ↦
          let there = filled-kept (add f e.key) es key once.whole pos' (
            subst (λ k. may_contain (some (add f e.key)) k ≡ true)
              (sym (eq_of_is_eq key e.key here)) (may_contain-add f e.key e.key w pos).0) in
          cc (h, there)
    ]
