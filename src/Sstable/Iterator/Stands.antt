-- ===== src/Sstable/Iterator/Stands.antt =====
-- The iterator of a table walks the entries of all its blocks.
use pebble_db.Prelude.{
  ℕ, zero, suc, ◌+◌, ◌^◌, ◌<◌, ◌≤◌, ◌≡◌, refl, sym, ap, subst, ◌∙◌, true, false, Option, none, some,
  List, [], ◌∷◌, ◌++◌, length, drop, arith, All, All-append_left, All-append_right, append_assoc,
  length-append, length-drop, drop-append, drop-drop, if◌then◌else◌,
}
use pebble_db.Bytes.{Bytes, copy_slice}
use pebble_db.Result.{ok}
use pebble_db.Iterator.{Entry}
use pebble_db.Iterator.Merge.{as_bytes}
use pebble_db.Sstable.Block.{BlockIterator, new_block_iterator, copied}
use pebble_db.Sstable.Cache.{Lru}
use pebble_db.Sstable.Reader.{Reader}
use pebble_db.Sstable.Reader.Lookup.{
  IsStored, block_bytes, block_bytes-append, next_entry, next_end, copied-canonical,
}
use pebble_db.Sstable.Groups.{flat, index_of, AllFilled}
use pebble_db.Sstable.Found.{read_group}
use pebble_db.Sstable.Iterator.{
  TableIterator, copy_of, tried, show, shown, loaded, load_from, load_block, advance_loop, advance,
  new_iterator,
}
use pebble_db.Sstable.Iterator
use pebble_db.Sstable.Table.Facts.{IsTableOf}
use pebble_db.Sstable.Table.{TableAnswers, make_table}
use pebble_db.Sstable.Table.Built.{make_table-IsTableOf}
use pebble_db.Sstable.Writer.{at_least_one}

-- What a block iterator has before it.
abbrev pub BlockAt : Option BlockIterator → List Entry → Type 0
BlockAt none cur = cur ≡ []
BlockAt (some b) cur = (drop b.pos b.data' ≡ block_bytes cur) × (b.pos ≤ length b.data')

-- An iterator with the entries `cur` left in its block, and the blocks `groups` behind it.
pub record Placed {L : Type 0} (it : TableIterator L) (cur : List Entry)
    (groups : List (List Entry)) : Type 0 where
  pub start : ℕ
  pub more : Bytes
  pub inside : start ≤ length it.reader.file
  pub at : drop start it.reader.file ≡ block_bytes (flat groups) ++ more
  pub index : drop it.next_block it.reader.index ≡ index_of start groups
  pub no_empty : AllFilled groups
  pub stored : All IsStored cur
  pub stored_later : All (All IsStored) groups
  pub block : BlockAt it.block_it cur
  pub not_closed : it.reader.file_closed ≡ false
  pub small : length it.reader.file < 2 ^ 64
  pub uncached : it.cache ≡ none

pub record Shows {L : Type 0} (it : TableIterator L) (e : Entry) : Type 0 where
  pub valid : it.valid' ≡ true
  pub key : it.key' ≡ copy_slice e.key
  pub value : it.value' ≡ e.value
  pub tombstone : it.tombstone ≡ e.tombstone

-- An iterator with these entries from its own on.
abbrev pub Stands : {L : Type 0} → TableIterator L → List Entry → Type 0
Stands it [] = it.valid' ≡ false
Stands it (e ∷ es) =
    Shows it e
    × (cur : List Entry) × (gs : List (List Entry)) × Placed it cur gs
    × (cur ++ flat gs ≡ es)

tried_over : (b : Option BlockIterator) → BlockAt b [] → (tried b).1 ≡ false
unfolding block_bytes
tried_over none h = refl
tried_over (some b) h =
    next_end b
      (let n = ap (λ (x : Bytes). length x) h.0 in omega (arith, n, length-drop b.pos b.data'))

tried_entry :
    (b : Option BlockIterator) (e : Entry) (cur : List Entry)
    → BlockAt b (e ∷ cur)
    → IsStored e
    → (b' : BlockIterator) × (tried b ≡ (some b', true))
      × (b'.key ≡ some e.key)
      × (b'.val ≡ some (as_bytes e.value))
      × (b'.tombstone ≡ e.tombstone)
      × BlockAt (some b') cur
tried_entry none e cur h stored = cc h
tried_entry (some b) e cur h stored =
    let (b', n, k, v, t, d, within, behind) = next_entry b e cur stored h.0 h.1 in
    (
      b',
      ap (λ p. (some p.0, p.1)) n,
      k,
      v,
      t,
      (behind, subst (λ (x : Bytes). b'.pos ≤ length x) (sym d) within),
    )

copied_is_copy : (b : Bytes) → copied (some b) ≡ copy_slice b
unfolding copied
copied_is_copy b = refl

All-groups : (gs : List (List Entry)) → All IsStored (flat gs) → All (All IsStored) gs
unfolding flat
All-groups [] h = tt
All-groups (g ∷ gs) h = (
  All-append_left IsStored g (flat gs) h,
  All-groups gs (All-append_right IsStored g (flat gs) h),
)

-- The entry at which an iterator stands, and all of them from there on, by the loop that every caller
-- runs.
abbrev pub current : {L : Type 0} → TableIterator L → Entry
current it = record {
  key = as_bytes (copy_of it.key');
  value = copy_of it.value';
  tombstone = it.tombstone;
}

unfoldable pub visit : {L : Type 0} → Lru L → (ℕ → Option ℕ) → ℕ → TableIterator L → List Entry
visit lru answer zero it = []
visit lru answer (suc fuel) it =
    let later = visit lru answer fuel (Iterator.next_entry lru answer it) in
    if it.valid' then current it ∷ later else []

module _ {L : Type 0} (lru : Lru L) (answer : ℕ → Option ℕ) where
  step-shown :
      (fuel : ℕ) (it : TableIterator L) (b : BlockIterator)
      → tried it.block_it ≡ (some b, true)
      → advance_loop lru answer (suc fuel) it ≡ show it b
  unfolding advance_loop
  step-shown fuel it b h = rw h refl

  step-loaded :
      (fuel : ℕ) (it it' : TableIterator L)
      → (tried it.block_it).1 ≡ false
      → load_block lru answer (record it { block_it = (tried it.block_it).0 }) ≡ (it', true)
      → advance_loop lru answer (suc fuel) it ≡ advance_loop lru answer fuel it'
  unfolding advance_loop
  step-loaded fuel it it' h l = rw (h, l) refl

  step-over :
      (fuel : ℕ) (it it' : TableIterator L)
      → (tried it.block_it).1 ≡ false
      → load_block lru answer (record it { block_it = (tried it.block_it).0 }) ≡ (it', false)
      → advance_loop lru answer (suc fuel) it ≡ it'
  unfolding advance_loop
  step-over fuel it it' h l = rw (h, l) refl

  advance-entry :
      (fuel : ℕ) (it : TableIterator L) (e : Entry) (cur : List Entry) (gs : List (List Entry))
      → Placed it (e ∷ cur) gs
      → Stands (advance_loop lru answer (suc fuel) it) (e ∷ (cur ++ flat gs))
  advance-entry fuel it e cur gs p =
      let (b, moves, key, val, tombstone, ahead) =
        tried_entry it.block_it e cur p.block p.stored.0 in
      subst (λ x. Stands x (e ∷ (cur ++ flat gs))) (sym (step-shown fuel it b moves))
        (
          record {
            valid = refl;
            key = ap copied key ∙ copied_is_copy e.key;
            value = ap copied val ∙ copied-canonical e p.stored.0;
            tombstone = tombstone;
          },
          cur,
          gs,
          record {
            start = p.start;
            more = p.more;
            inside = p.inside;
            at = p.at;
            index = p.index;
            no_empty = p.no_empty;
            stored = p.stored.1;
            stored_later = p.stored_later;
            block = ahead;
            not_closed = p.not_closed;
            small = p.small;
            uncached = p.uncached;
          },
          refl,
        )

  -- The iterator that the next block gives.
  abbrev at_next_block : TableIterator L → List Entry → TableIterator L
  at_next_block it g = record {
    reader = it.reader;
    cache = none;
    next_block = it.next_block + 1;
    block_it = some (new_block_iterator (block_bytes g));
    key' = it.key';
    value' = it.value';
    tombstone = it.tombstone;
    valid' = it.valid';
    fault = it.fault;
  }

  abbrev past_end : TableIterator L → Option BlockIterator → TableIterator L
  past_end it b = record {
    reader = it.reader;
    cache = it.cache;
    next_block = it.next_block + 1;
    block_it = b;
    key' = it.key';
    value' = it.value';
    tombstone = it.tombstone;
    valid' = false;
    fault = it.fault;
  }

  module _ (answers : (i : ℕ) → answer i ≡ none) where
    load_block-group :
        (it : TableIterator L) (b : Option BlockIterator) (cur g : List Entry)
        (gs : List (List Entry))
        → Placed it cur (g ∷ gs)
        → load_block lru answer (record it { block_it = b }) ≡ (at_next_block it g, true)
    unfolding flat index_of
    load_block-group it b cur g gs p =
        let split : drop p.start it.reader.file
            ≡ block_bytes g ++ (block_bytes (flat gs) ++ p.more) =
          p.at
          ∙ ap (λ t. t ++ p.more) (block_bytes-append g (flat gs))
          ∙ append_assoc (block_bytes g) (block_bytes (flat gs)) p.more in
        let read =
          read_group lru it.reader p.not_closed p.start g _ (omega (arith, p.inside, p.small))
            p.inside split in
        rw (p.index, p.uncached, answers it.next_block, read) refl

    next_block-Placed :
        (it : TableIterator L) (g : List Entry) (gs : List (List Entry))
        → Placed it [] (g ∷ gs)
        → Placed (at_next_block it g) g gs
    unfolding flat index_of
    next_block-Placed it g gs p =
        let size = length (block_bytes g) in
        let later = block_bytes (flat gs) ++ p.more in
        let split : drop p.start it.reader.file ≡ block_bytes g ++ later =
          p.at
          ∙ ap (λ t. t ++ p.more) (block_bytes-append g (flat gs))
          ∙ append_assoc (block_bytes g) (block_bytes (flat gs)) p.more in
        let left : length (drop p.start it.reader.file) ≡ size + length later =
          ap (λ (b : Bytes). length b) split ∙ length-append (block_bytes g) later in
        record {
          start = p.start + size;
          more = p.more;
          inside = omega (arith, left, length-drop p.start it.reader.file, p.inside);
          at =
              sym (drop-drop p.start size it.reader.file)
              ∙ ap (drop size) split
              ∙ drop-append size (block_bytes g) later refl;
          index = sym (drop-drop it.next_block 1 it.reader.index) ∙ ap (drop 1) p.index;
          no_empty = p.no_empty.1;
          stored = p.stored_later.0;
          stored_later = p.stored_later.1;
          block = (refl, omega arith);
          not_closed = p.not_closed;
          small = p.small;
          uncached = refl;
        }

    load_block_over :
        (it : TableIterator L) (b : Option BlockIterator)
        → Placed it [] []
        → load_block lru answer (record it { block_it = b }) ≡ (past_end it b, false)
    unfolding index_of
    load_block_over it b p = rw p.index refl

    advance-Stands :
        (fuel : ℕ) (it : TableIterator L) (cur : List Entry) (gs : List (List Entry))
        → Placed it cur gs
        → Stands (advance_loop lru answer (suc (suc fuel)) it) (cur ++ flat gs)
    advance-Stands fuel it (e ∷ cur) gs p = advance-entry (suc fuel) it e cur gs p
    advance-Stands fuel it [] [] p =
        unfold flat in
        ap (λ (x : TableIterator L). x.valid')
          (step-over (suc fuel) it (past_end it (tried it.block_it).0)
            (tried_over it.block_it p.block) (load_block_over it (tried it.block_it).0 p))
    advance-Stands fuel it [] ([] ∷ gs) p = absurd (p.no_empty.0 refl)
    advance-Stands fuel it [] ((e ∷ g) ∷ gs) p =
        subst (λ x. Stands x (flat ((e ∷ g) ∷ gs)))
          (sym (
            step-loaded (suc fuel) it (at_next_block it (e ∷ g)) (tried_over it.block_it p.block)
              (load_block-group it (tried it.block_it).0 [] (e ∷ g) gs p)))
          (unfold flat in
            advance-entry fuel (at_next_block it (e ∷ g)) e g gs
              (next_block-Placed it (e ∷ g) gs p))

    advance-whole :
        (it : TableIterator L) (cur : List Entry) (gs : List (List Entry))
        → Placed it cur gs
        → Stands (advance lru answer it) (cur ++ flat gs)
    unfolding advance
    advance-whole it cur gs p =
        subst (λ n. Stands (advance_loop lru answer n it) (cur ++ flat gs))
          (let e : suc (suc (length it.reader.index)) ≡ length it.reader.index + 2 = omega arith in
            e)
          (advance-Stands (length it.reader.index) it cur gs p)

    -- `Next` on an iterator that stands at an entry leads to the entry behind it, or to the end.
    pub next_entry-Stands :
        (it : TableIterator L) (e : Entry) (es : List Entry)
        → Stands it (e ∷ es)
        → Stands (Iterator.next_entry lru answer it) es
    unfolding Iterator.next_entry
    next_entry-Stands it e es (shows, cur, gs, p, same) =
        subst (λ v. Stands (if v then advance lru answer it else it) es) (sym shows.valid)
          (subst (Stands (advance lru answer it)) same (advance-whole it cur gs p))

    new_iterator-Stands :
        (r : Reader) (es : List Entry)
        → All IsStored es
        → IsTableOf r es
        → Stands (new_iterator lru answer r none) es
    unfolding new_iterator
    new_iterator-Stands r es stored t = subst (Stands (new_iterator lru answer r none)) t.whole (
        advance-whole
          (record {
            reader = r;
            cache = none;
            next_block = 0;
            block_it = none;
            key' = none;
            value' = none;
            tombstone = false;
            valid' = false;
            fault = none;
          })
          [] t.groups
          (record {
            start = 0;
            more = t.rest;
            inside = omega arith;
            at = t.file;
            index = t.index;
            no_empty = t.no_empty;
            stored = tt;
            stored_later = All-groups t.groups (subst (All IsStored) (sym t.whole) stored);
            block = refl;
            not_closed = t.not_closed;
            small = t.small;
            uncached = refl;
          }))

    copy_of-copy : (b : Bytes) → as_bytes (copy_of (copy_slice b)) ≡ b
    unfolding copy_slice
    copy_of-copy [] = refl
    copy_of-copy (x ∷ b) = refl

    copy_of-canonical : (v : Option Bytes) → copy_slice (as_bytes v) ≡ v → copy_of v ≡ v
    copy_of-canonical none h = refl
    copy_of-canonical (some b) h = h

    current-eq : (it : TableIterator L) (e : Entry) → Shows it e → IsStored e → current it ≡ e
    current-eq it e shows stored =
        let key : as_bytes (copy_of it.key') ≡ e.key =
          ap (λ k. as_bytes (copy_of k)) shows.key ∙ copy_of-copy e.key in
        let value : copy_of it.value' ≡ e.value =
          ap copy_of shows.value ∙ copy_of-canonical e.value stored.canonical in
        cc (key, value, shows.tombstone)

    visit-Stands :
        (fuel : ℕ) (it : TableIterator L) (es : List Entry)
        → All IsStored es
        → Stands it es
        → length es ≤ fuel
        → visit lru answer fuel it ≡ es
    unfolding visit
    visit-Stands zero it [] stored s enough = refl
    visit-Stands zero it (e ∷ es) stored s enough = absurd (omega arith)
    visit-Stands (suc fuel) it [] stored s enough = rw s refl
    visit-Stands (suc fuel) it (e ∷ es) stored s enough =
        let later =
          visit-Stands fuel (Iterator.next_entry lru answer it) es stored.1
            (next_entry-Stands it e es s) (omega arith) in
        ap
          (λ v.
            if v
            then current it ∷ visit lru answer fuel (Iterator.next_entry lru answer it)
            else [])
          s.0.valid
        ∙ ap (λ x. x ∷ visit lru answer fuel (Iterator.next_entry lru answer it))
            (current-eq it e s.0 stored.0)
        ∙ ap (λ t. e ∷ t) later

-- The iterator of a table that was made without a reported error visits the entries that it was made
-- from, all of them, in their order and once each, and then is invalid: however many steps it is given,
-- as many as there are entries or more, they visit nothing else. The entries are as a memtable hands
-- them over, the filter has bits and fits its 32-bit numbers, the file is not too large, and no read of
-- a block fails.
pub new_iterator-visits :
    {L : Type 0} (lru : Lru L) (answer : ℕ → Option ℕ) (sizes : ℕ → ℕ × ℕ) (file_id expected : ℕ)
    (es : List Entry) (a : TableAnswers) (r : Reader) (steps : ℕ)
    → ((i : ℕ) → answer i ≡ none)
    → 0 < (sizes (at_least_one expected)).0
    → (sizes (at_least_one expected)).0 + 8 < 2 ^ 32
    → All IsStored es
    → length r.file < 2 ^ 62
    → make_table sizes file_id expected es a ≡ ok r
    → length es ≤ steps
    → visit lru answer steps (new_iterator lru answer r none) ≡ es
new_iterator-visits lru answer sizes file_id expected es a r steps answers pos fits stored small h
      enough =
    visit-Stands lru answer answers steps (new_iterator lru answer r none) es stored
      (new_iterator-Stands lru answer answers r es stored
        (make_table-IsTableOf sizes file_id expected es a r pos fits stored small h))
      enough
