-- ===== src/Sstable/Reader/Lookup.antt =====
-- The lookup inside a block, and through the index, finds what the entries of the table have.
use pebble_db.Prelude.{
  ℕ, zero, suc, ◌+◌, ◌^◌, ◌<◌, ◌≤◌, ◌≡◌, refl, sym, ap, subst, ◌∙◌, true, false, none, some, List,
  [], ◌∷◌, ◌++◌, length, drop, arith, All, ltb, length-append, length-drop, drop-append, drop-drop,
  append_assoc,
}
use pebble_db.Bytes.{Bytes, copy_slice, compare_bytes}
use pebble_db.Bytes.Order.{◌≺◌, trichotomy, below, same, above, compare_bytes_refl, gt_of_lt}
use pebble_db.Iterator.{Entry}
use pebble_db.Iterator.Merge.{as_bytes}
use pebble_db.Iterator.Merge.Lists.{find, find-eq-none_of_above, above_trans}
use pebble_db.Memtable.Lookup.{answer}
use pebble_db.Iterator.Merge.Output.{Ascending}
use pebble_db.Sstable.Block.{entry_bytes, BlockIterator, next, copied}
use pebble_db.Sstable.Block.RoundTrip.{next-entry_bytes, length-entry_bytes}
use pebble_db.Sstable.Reader.{judged, scan_block}

-- An entry as the memtable hands it over: of lengths of 32 bits, its value nil where it is empty or
-- where the entry is a tombstone.
pub record IsStored (e : Entry) : Type 0 where
  pub key_fits : length e.key < 2 ^ 32
  pub value_fits : length (as_bytes e.value) < 2 ^ 32
  pub canonical : copy_slice (as_bytes e.value) ≡ e.value
  pub bare : e.tombstone ≡ true → e.value ≡ none

-- The bytes of a block with these entries.
unfoldable pub block_bytes : List Entry → Bytes
block_bytes [] = []
block_bytes (e ∷ es) = entry_bytes e.key (as_bytes e.value) e.tombstone ++ block_bytes es

pub block_bytes-append : (a b : List Entry) → block_bytes (a ++ b) ≡ block_bytes a ++ block_bytes b
unfolding block_bytes
block_bytes-append [] b = refl
block_bytes-append (e ∷ a) b =
    ap (λ t. entry_bytes e.key (as_bytes e.value) e.tombstone ++ t) (block_bytes-append a b)
    ∙ sym (
        append_assoc (entry_bytes e.key (as_bytes e.value) e.tombstone) (block_bytes a)
          (block_bytes b))

pub copied-some : (b : Bytes) → as_bytes (copied (some b)) ≡ b
unfolding copied copy_slice
copied-some [] = refl
copied-some (x ∷ b) = refl

pub copied-canonical : (e : Entry) → IsStored e → copied (some (as_bytes e.value)) ≡ e.value
unfolding copied
copied-canonical e h = h.canonical

pub next_end : (it : BlockIterator) → length it.data' ≤ it.pos → (next it).1 ≡ false
unfolding next
next_end it h = let f : ltb (length it.data') (it.pos + 4) ≡ true = ground (arith, h) in rw f

scan_block_end :
    (fuel : ℕ) (key : Bytes) (it : BlockIterator)
    → length it.data' ≤ it.pos
    → scan_block fuel key it ≡ (none, false, false)
unfolding scan_block
scan_block_end zero key it h = refl
scan_block_end (suc fuel) key it h = rw (next_end it h)

answer_hit : (e : Entry) → IsStored e → (e.value, true, e.tombstone) ≡ answer (some e)
answer_hit e h = ground (arith, h.bare)

pub next_entry :
    (it : BlockIterator) (e : Entry) (es : List Entry)
    → IsStored e
    → drop it.pos it.data' ≡ block_bytes (e ∷ es)
    → it.pos ≤ length it.data'
    → (it' : BlockIterator) × (next it ≡ (it', true))
      × (it'.key ≡ some e.key)
      × (it'.val ≡ some (as_bytes e.value))
      × (it'.tombstone ≡ e.tombstone)
      × (it'.data' ≡ it.data')
      × (it'.pos ≤ length it.data')
      × (drop it'.pos it'.data' ≡ block_bytes es)
unfolding block_bytes
next_entry it e es h at inside =
    let bytes = entry_bytes e.key (as_bytes e.value) e.tombstone in
    let it' : BlockIterator = record {
      data' = it.data';
      pos = it.pos + length bytes;
      key = some e.key;
      val = some (as_bytes e.value);
      tombstone = e.tombstone;
    } in
    let left : length (drop it.pos it.data') ≡ length bytes + length (block_bytes es) =
      ap (λ (b : Bytes). length b) at ∙ length-append bytes (block_bytes es) in
    (
      it',
      next-entry_bytes it e.key (as_bytes e.value) e.tombstone (block_bytes es) inside h.key_fits
          h.value_fits at,
      refl,
      refl,
      refl,
      refl,
      omega (arith, left, length-drop it.pos it.data'),
      sym (drop-drop it.pos (length bytes) it.data')
          ∙ ap (drop (length bytes)) at
          ∙ drop-append (length bytes) bytes (block_bytes es) refl,
    )

-- One turn at an entry.
scan_block-step :
    (fuel : ℕ) (key : Bytes) (it it' : BlockIterator) (e : Entry)
    → next it ≡ (it', true)
    → it'.key ≡ some e.key
    → scan_block (suc fuel) key it ≡ judged (compare_bytes key e.key) it' (scan_block fuel key it')
unfolding scan_block
scan_block-step fuel key it it' e n k = rw (n, k, copied-some e.key) refl

hit_here :
    (e : Entry) (it' : BlockIterator) (es : List Entry)
    → IsStored e
    → it'.val ≡ some (as_bytes e.value)
    → it'.tombstone ≡ e.tombstone
    → (copied it'.val, true, it'.tombstone) ≡ answer (find e.key (e ∷ es))
unfolding find
hit_here e it' es h v t = rw (compare_bytes_refl e.key, v, copied-canonical e h, t) (answer_hit e h)

find_later :
    (key : Bytes) (e : Entry) (es : List Entry) → e.key ≺ key → find key (e ∷ es) ≡ find key es
unfolding find
find_later key e es gt = rw (gt_of_lt e.key key gt)

-- From any place in a block, the loop answers by the entries that are left.
pub scan_block-find :
    (fuel : ℕ) (key : Bytes) (it : BlockIterator) (es : List Entry)
    → Ascending es
    → All IsStored es
    → drop it.pos it.data' ≡ block_bytes es
    → it.pos ≤ length it.data'
    → length es < fuel
    → scan_block fuel key it ≡ answer (find key es)
scan_block-find zero key it es asc h at inside enough = absurd (omega arith)
scan_block-find (suc fuel) key it [] asc h at inside enough =
    scan_block_end (suc fuel) key it (
      let none_left : length (drop it.pos it.data') ≡ 0 =
        unfold block_bytes in ap (λ (b : Bytes). length b) at in
      omega (arith, none_left, length-drop it.pos it.data'))
    ∙ unfold find in refl
scan_block-find (suc fuel) key it (e ∷ es) asc h at inside enough =
    let (it', n, k, v, t, d, within, behind) = next_entry it e es h.0 at inside in
    let later =
      scan_block-find fuel key it' es asc.1 h.1 behind
        (subst (λ (b : Bytes). it'.pos ≤ length b) (sym d) within) (omega (arith, enough)) in
    scan_block-step fuel key it it' e n k ∙ elim (trichotomy key e.key) [
      | below lt ↦ rw lt (
          ap answer
            (sym (find-eq-none_of_above key (e ∷ es) (lt, above_trans key e.key es lt asc.0))))
      | same eq ↦ rw (eq, compare_bytes_refl e.key) (hit_here e it' es h.0 v t)
      | above gt ↦ rw (gt_of_lt e.key key gt, find_later key e es gt) later
    ]

-- A block has at least as many bytes as entries.
pub length-block_bytes : (es : List Entry) → length es ≤ length (block_bytes es)
unfolding block_bytes
length-block_bytes [] = omega arith
length-block_bytes (e ∷ es) =
    let bytes = entry_bytes e.key (as_bytes e.value) e.tombstone in
    omega (
      arith,
      length-block_bytes es,
      length-append bytes (block_bytes es),
      length-entry_bytes e.key (as_bytes e.value) e.tombstone,
    )
