-- ===== src/Sstable/Writer/Layout.antt =====
-- What a writer holds after entries have been added to it.
use pebble_db.Prelude.{
  ◌+◌, ◌%◌, ◌^◌, ◌≡◌, ◌≢◌, refl, sym, ap, subst, ◌∙◌, ◌⊎◌, inl, inr, Bool, true, false, Bool-cases,
  none, List, [], ◌∷◌, ◌++◌, length, arith, All-append, append_assoc, append-nil, length-append,
  leb, ◌==◌, ◌||◌,
}
use pebble_db.Bytes.{Bytes, copy_slice}
use pebble_db.Result.{Result, ok, err, on_success-eq}
use pebble_db.Wal.Log.{Answer, written, failed}
use pebble_db.Bloom
use pebble_db.Iterator.{Entry}
use pebble_db.Iterator.Merge.{as_bytes}
use pebble_db.Sstable.Block.{BlockError, entry_bytes, append_entry}
use pebble_db.Sstable.Reader.Lookup.{block_bytes, block_bytes-append, length-block_bytes}
use pebble_db.Sstable.Groups.{flat, last_of, index_of, AllFilled, flat-snoc, index_of-snoc}
use pebble_db.Sstable.Writer.{
  Writer, write, flush_block, appended, append_to_block, make_room, out_of_order, add,
}

-- The filter after the keys of some entries.
unfoldable pub filled : Bloom.Filter → List Entry → Bloom.Filter
filled f [] = f
filled f (e ∷ es) = filled (Bloom.add f e.key) es

-- `groups` are the blocks that are in the file, `current` the entries of the block in memory.
pub record Laid (start : Bloom.Filter) (w : Writer) (groups : List (List Entry))
    (current : List Entry) : Type 0 where
  pub file : w.file ≡ block_bytes (flat groups)
  pub current' : w.current ≡ block_bytes current
  pub index : w.index ≡ index_of 0 groups
  pub offset : w.offset ≡ length w.file % 2 ^ 64
  pub bloom : w.bloom ≡ filled start (flat groups ++ current)
  pub last : (current ≡ []) ⊎ (as_bytes w.last_key ≡ last_of current)
  pub no_empty : AllFilled groups

pub filled-snoc :
    (f : Bloom.Filter) (es : List Entry) (e : Entry)
    → filled f (es ++ e ∷ []) ≡ Bloom.add (filled f es) e.key
unfolding filled
filled-snoc f [] e = refl
filled-snoc f (x ∷ es) e = filled-snoc (Bloom.add f x.key) es e

last_of-snoc : (es : List Entry) (e : Entry) → last_of (es ++ e ∷ []) ≡ e.key
unfolding last_of
last_of-snoc [] e = refl
last_of-snoc (x ∷ []) e = refl
last_of-snoc (x ∷ y ∷ es) e = last_of-snoc (y ∷ es) e

snoc-ne-nil : (es : List Entry) (e : Entry) → es ++ e ∷ [] ≢ []
snoc-ne-nil [] e h = cc
snoc-ne-nil (x ∷ es) e h = cc

as_bytes-copy : (b : Bytes) → as_bytes (copy_slice b) ≡ b
unfolding copy_slice
as_bytes-copy [] = refl
as_bytes-copy (x ∷ b) = refl

pub write-eq :
    (w : Writer) (buf : Bytes) (a : Answer) {w' : Writer}
    → write w buf a ≡ (w', none)
    → w' ≡ record w { file = w.file ++ buf }
unfolding write
write-eq w buf written h = sym (ap (λ p. p.0) h)
write-eq w buf (failed n e) h = cc (ap (λ p. p.1) h)

-- A writer after its block has gone to the file.
abbrev flushed : Writer → Writer
flushed w = record {
  file = w.file ++ w.current;
  block_size = w.block_size;
  current = [];
  index =
      w.index
      ++ record { last_key = as_bytes w.last_key; offset = w.offset; length' = length w.current }
        ∷ [];
  bloom = w.bloom;
  last_key = w.last_key;
  offset = (w.offset + length w.current) % 2 ^ 64;
}

nil_of_length : (b : Bytes) → (length b == 0) ≡ true → b ≡ []
nil_of_length [] h = refl
nil_of_length (x ∷ b) h = absurd (ground (arith, h))

flush_block-eq :
    (w : Writer) (a : Answer) {w' : Writer}
    → flush_block w a ≡ (w', none)
    → ((w.current ≡ []) × (w' ≡ w)) ⊎ ((w.current ≢ []) × (w' ≡ flushed w))
unfolding flush_block
flush_block-eq w a h = elim (Bool-cases (length w.current == 0)) [
  | inl empty ↦ inl (nil_of_length w.current empty, sym (ap (λ p. p.0) (rw empty at h)))
  | inr full ↦
      let (w1, wrote, last_step) = on_success-eq (write w w.current a) _ _ (rw full at h) in
      inr (
        (λ nil. cc (full, ap (λ (b : Bytes). length b == 0) nil)),
        sym (ap (λ p. p.0) last_step)
            ∙ ap
                (λ (x : Writer). record {
                  file = x.file;
                  block_size = x.block_size;
                  current = [];
                  index =
                      w.index
                      ++ record {
                        last_key = as_bytes w.last_key;
                        offset = w.offset;
                        length' = length w.current;
                      }
                        ∷ [];
                  bloom = x.bloom;
                  last_key = x.last_key;
                  offset = (w.offset + length w.current) % 2 ^ 64;
                })
                (write-eq w w.current a wrote),
      )
]

nil_of_block : (es : List Entry) → block_bytes es ≡ [] → es ≡ []
nil_of_block [] h = refl
nil_of_block (e ∷ es) h =
    absurd (let n = ap (λ (b : Bytes). length b) h in omega (arith, n, length-block_bytes (e ∷ es)))

appended-eq :
    (w : Writer) (key : Bytes) (r : Result BlockError Bytes) {w' : Writer}
    → appended w key r ≡ (w', none)
    → (block : Bytes) × (r ≡ ok block)
      × (w'
          ≡ record w { current = block; bloom = Bloom.add w.bloom key; last_key = copy_slice key })
appended-eq w key (err e) h = cc (ap (λ p. p.1) h)
appended-eq w key (ok block) h = (block, refl, sym (ap (λ p. p.0) h))

append_entry-eq :
    (data' key value : Bytes) (tombstone : Bool) {block : Bytes}
    → append_entry data' key value tombstone ≡ ok block
    → block ≡ data' ++ entry_bytes key value tombstone
unfolding append_entry
append_entry-eq data' key value tombstone h =
    elim (Bool-cases (leb (2 ^ 32) (length key) || leb (2 ^ 32) (length value))) [
      | inl long ↦ cc (rw long at h)
      | inr fits ↦ cc (rw fits at h)
    ]

block_bytes-snoc :
    (es : List Entry) (e : Entry)
    → block_bytes (es ++ e ∷ [])
      ≡ block_bytes es ++ entry_bytes e.key (as_bytes e.value) e.tombstone
block_bytes-snoc es e =
    block_bytes-append es (e ∷ [])
    ∙ ap (λ t. block_bytes es ++ t)
        (unfold block_bytes in append-nil (entry_bytes e.key (as_bytes e.value) e.tombstone))

module _ (start : Bloom.Filter) where
  -- The part of a last key that matters: there is a current block.
  last_of_block :
      (w : Writer) (gs : List (List Entry)) (cur : List Entry)
      → Laid start w gs cur
      → cur ≢ []
      → as_bytes w.last_key ≡ last_of cur
  last_of_block w gs cur l full = elim l.last [ inl nil ↦ absurd (full nil) | inr e ↦ e ]

  flushed-Laid :
      (w : Writer) (gs : List (List Entry)) (cur : List Entry)
      → Laid start w gs cur
      → cur ≢ []
      → Laid start (flushed w) (gs ++ cur ∷ []) []
  flushed-Laid w gs cur l full =
      let size : length (w.file ++ w.current) ≡ length w.file + length w.current =
        length-append w.file w.current in
      let offset : w.offset ≡ (0 + length (block_bytes (flat gs))) % 2 ^ 64 =
        omega (arith, l.offset, ap (λ (b : Bytes). length b) l.file) in
      record {
        file = rw (l.file, l.current', flat-snoc gs cur) (sym (block_bytes-append (flat gs) cur));
        current' = unfold block_bytes in refl;
        index =
            rw (l.index, last_of_block w gs cur l full, offset, l.current')
              (sym (index_of-snoc 0 gs cur));
        offset = omega (arith, size, l.offset);
        bloom =
            l.bloom
            ∙ ap (filled start) (sym (flat-snoc gs cur) ∙ sym (append-nil (flat (gs ++ cur ∷ []))));
        last = inl refl;
        no_empty = All-append (λ (g : List Entry). g ≢ []) gs (cur ∷ []) l.no_empty (full, tt);
      }

  -- Blocks and a current block that hold the same entries.
  abbrev pub Regrouped : Writer → List Entry → Type 0
  Regrouped w es =
      (gs : List (List Entry)) × (cur : List Entry) × Laid start w gs cur × (flat gs ++ cur ≡ es)

  pub flush_block-Laid :
      (w : Writer) (a : Answer) (gs : List (List Entry)) (cur : List Entry) {w' : Writer}
      → Laid start w gs cur
      → flush_block w a ≡ (w', none)
      → (gs' : List (List Entry)) × Laid start w' gs' [] × (flat gs' ≡ flat gs ++ cur)
  flush_block-Laid w a gs cur l h = elim (flush_block-eq w a h) [
    | inl (empty, same) ↦
        let nil = nil_of_block cur (sym l.current' ∙ empty) in
        (
          gs,
          subst (λ x. Laid start x gs []) (sym same) (subst (Laid start w gs) nil l),
          sym (ap (λ c. flat gs ++ c) nil ∙ append-nil (flat gs)),
        )
    | inr (full, e) ↦ (
      gs ++ cur ∷ [],
      subst (λ x. Laid start x (gs ++ cur ∷ []) []) (sym e)
          (flushed-Laid w gs cur l
            (λ nil. full (l.current' ∙ ap block_bytes nil ∙ (unfold block_bytes in refl)))),
      flat-snoc gs cur,
    )
  ]

  append_to_block-Laid :
      (w : Writer) (gs : List (List Entry)) (cur : List Entry) (e : Entry) {w' : Writer}
      → Laid start w gs cur
      → append_to_block w e.key (as_bytes e.value) e.tombstone ≡ (w', none)
      → Laid start w' gs (cur ++ e ∷ [])
  unfolding append_to_block
  append_to_block-Laid w gs cur e l h =
      let (block, read, same) =
        appended-eq w e.key (append_entry w.current e.key (as_bytes e.value) e.tombstone) h in
      let bytes : block ≡ block_bytes (cur ++ e ∷ []) =
        append_entry-eq w.current e.key (as_bytes e.value) e.tombstone read
        ∙ ap (λ t. t ++ entry_bytes e.key (as_bytes e.value) e.tombstone) l.current'
        ∙ sym (block_bytes-snoc cur e) in
      subst (λ x. Laid start x gs (cur ++ e ∷ [])) (sym same)
        (record {
          file = l.file;
          current' = bytes;
          index = l.index;
          offset = l.offset;
          bloom =
              ap (λ f. Bloom.add f e.key) l.bloom
              ∙ sym (filled-snoc start (flat gs ++ cur) e)
              ∙ ap (filled start) (append_assoc (flat gs) cur (e ∷ []));
          last = inr (as_bytes-copy e.key ∙ sym (last_of-snoc cur e));
          no_empty = l.no_empty;
        })

  make_room-Laid :
      (b c : Bool) (w : Writer) (a : Answer) (gs : List (List Entry)) (cur : List Entry)
      {w' : Writer}
      → Laid start w gs cur
      → make_room b c w (flush_block w a) ≡ (w', none)
      → Regrouped w' (flat gs ++ cur)
  make_room-Laid true true w a gs cur l h =
      let (gs', laid, same) = flush_block-Laid w a gs cur l h in
      (gs', [], laid, append-nil (flat gs') ∙ same)
  make_room-Laid true false w a gs cur l h =
      (gs, cur, subst (λ x. Laid start x gs cur) (ap (λ p. p.0) h) l, refl)
  make_room-Laid false c w a gs cur l h =
      (gs, cur, subst (λ x. Laid start x gs cur) (ap (λ p. p.0) h) l, refl)

  -- An entry that was added without an error stands behind the entries before it.
  pub add-Laid :
      (w : Writer) (es : List Entry) (e : Entry) (a : Answer) {w' : Writer}
      → Regrouped w es
      → add w e.key (as_bytes e.value) e.tombstone a ≡ (w', none)
      → Regrouped w' (es ++ e ∷ [])
  unfolding add
  add-Laid w es e a (gs, cur, l, same) h = elim (Bool-cases (out_of_order w.last_key e.key)) [
    | inl bad ↦ cc (ap (λ p. p.1) (rw bad at h))
    | inr good ↦
        let (w1, room, appended') = on_success-eq _ _ _ (rw good at h) in
        let (gs', cur', l', same') = make_room-Laid _ _ w a gs cur l room in
        (
          gs',
          cur' ++ e ∷ [],
          append_to_block-Laid w1 gs' cur' e l' appended',
          sym (append_assoc (flat gs') cur' (e ∷ [])) ∙ ap (λ t. t ++ e ∷ []) (same' ∙ same),
        )
  ]
