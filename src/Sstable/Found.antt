-- ===== src/Sstable/Found.antt =====
-- `Get` of a reader whose file has the blocks that its index says.
use pebble_db.Prelude.{
  ℕ, ◌+◌, ◌%◌, ◌^◌, ◌<◌, ◌≤◌, ◌≡◌, ◌≢◌, refl, sym, ap, subst, ◌∙◌, false, Option, none, some, List,
  [], ◌∷◌, ◌++◌, length, take, drop, arith, All, All-map, All-append_left, All-append_right,
  append_assoc, length-append, ltb, le→ltb, Bool-cases, inl, inr, drop-drop, drop-append,
  take-append, length-drop,
}
use native.Mathlib.Nat.{mod-eq_of_lt}
use pebble_db.Bytes.{Bytes}
use pebble_db.Bytes.Order.{◌≺◌, ◌≼◌, below, same, above, trichotomy, lt_trans}
use pebble_db.Result.{ok}
use pebble_db.Iterator.{Entry}
use pebble_db.Iterator.Merge.Lists.{find, find-eq-none_of_above}
use pebble_db.Iterator.Merge.Output.{Ascending}
use pebble_db.Memtable.Lookup.{answer}
use pebble_db.Db.Get.Layers.{or_find, find-append}
use pebble_db.Sstable.Cache.{Lru}
use pebble_db.Sstable.Block.{new_block_iterator}
use pebble_db.Sstable.Reader.{Reader, reaches, read_at, read_block, from_file, in_block, get_from}
use pebble_db.Sstable.Reader.Lookup.{
  IsStored, block_bytes, block_bytes-append, length-block_bytes, scan_block-find,
}
use pebble_db.Sstable.Groups.{
  flat, last_of, group_entry, index_of, AllFilled, last_of-below, Ascending-left, Ascending-right,
  find_beyond,
}
use pebble_db.Sstable.Indexed.{le_of_reaches, lt_of_reaches, from_first}

or_find-none : (a : Option Entry) → or_find a none ≡ a
unfolding or_find
or_find-none none = refl
or_find-none (some e) = refl

-- A key that is not above the last one of a block is in no later block.
find_in_block :
    (key : Bytes) (g : List Entry) (later : List Entry)
    → g ≢ []
    → Ascending (g ++ later)
    → key ≼ last_of g
    → find key (g ++ later) ≡ find key g
find_in_block key g later filled asc le =
    let all_above : All (λ (e : Entry). key ≺ e.key) later =
      All-map (λ (e : Entry). last_of g ≺ e.key) (λ (e : Entry). key ≺ e.key) later
        (λ e h. elim (trichotomy key (last_of g)) [
          | below lt ↦ lt_trans key (last_of g) e.key lt h
          | same eq ↦ subst (λ k. k ≺ e.key) (sym eq) h
          | above gt ↦ absurd (le gt)
        ])
        (last_of-below g later filled asc) in
    find-append key g later
    ∙ rw (find-eq-none_of_above key later all_above) (or_find-none (find key g))

find_in_later :
    (key : Bytes) (g : List Entry) (later : List Entry)
    → Ascending (g ++ later)
    → last_of g ≺ key
    → find key (g ++ later) ≡ find key later
find_in_later key g later asc lt =
    find-append key g later
    ∙ rw (find_beyond key g (Ascending-left g later asc) lt) (unfold or_find in refl)

in_block-find :
    (key : Bytes) (g : List Entry)
    → Ascending g
    → All IsStored g
    → in_block key (ok (block_bytes g)) ≡ ok (answer (find key g))
in_block-find key g asc stored = ap ok (
    scan_block-find (length (block_bytes g) + 1) key (new_block_iterator (block_bytes g)) g asc
      stored refl (omega arith) (let size = length-block_bytes g in omega (arith, size)))

module _ {L : Type 0} (lru : Lru L) (r : Reader) (open' : r.file_closed ≡ false) where
  pub read_group :
      (start : ℕ) (g : List Entry) (rest : Bytes)
      → start < 2 ^ 64
      → start ≤ length r.file
      → drop start r.file ≡ block_bytes g ++ rest
      → read_block lru r none (start % 2 ^ 64) (length (block_bytes g)) none
        ≡ (ok (block_bytes g), none)
  unfolding read_block from_file read_at
  read_group start g rest small inside at =
      let left : length (drop start r.file) ≡ length (block_bytes g) + length rest =
        ap (λ (b : Bytes). length b) at ∙ length-append (block_bytes g) rest in
      let fits : ltb (length r.file) (start + length (block_bytes g)) ≡ false =
        le→ltb (length r.file) (start + length (block_bytes g))
          (omega (arith, left, length-drop start r.file)) in
      let cut : take (length (block_bytes g)) (drop start r.file) ≡ block_bytes g =
        ap (take (length (block_bytes g))) at
        ∙ take-append (length (block_bytes g)) (block_bytes g) rest refl in
      simp (mod-eq_of_lt small, open', fits, cut)

  pub get_from-find :
      (start : ℕ) (gs : List (List Entry)) (key rest : Bytes)
      → AllFilled gs
      → Ascending (flat gs)
      → All IsStored (flat gs)
      → length r.file < 2 ^ 64
      → start ≤ length r.file
      → drop start r.file ≡ block_bytes (flat gs) ++ rest
      → get_from lru r none key none (from_first key (index_of start gs))
        ≡ (ok (answer (find key (flat gs))), none)
  unfolding flat index_of from_first get_from
  get_from-find start [] key rest filled asc stored small inside at = unfold find in refl
  get_from-find start (g ∷ gs) key rest filled asc stored small inside at =
      let size = length (block_bytes g) in
      let later = block_bytes (flat gs) ++ rest in
      let split : drop start r.file ≡ block_bytes g ++ later =
        at
        ∙ ap (λ b. b ++ rest) (block_bytes-append g (flat gs))
        ∙ append_assoc (block_bytes g) (block_bytes (flat gs)) rest in
      let left : length (drop start r.file) ≡ size + length later =
        ap (λ (b : Bytes). length b) split ∙ length-append (block_bytes g) later in
      let next : drop (start + size) r.file ≡ later =
        sym (drop-drop start size r.file)
        ∙ ap (drop size) split
        ∙ drop-append size (block_bytes g) later refl in
      let ih =
        get_from-find (start + size) gs key rest filled.1 (Ascending-right g (flat gs) asc)
          (All-append_right IsStored g (flat gs) stored) small
          (omega (arith, left, length-drop start r.file)) next in
      elim (Bool-cases (reaches key (group_entry start g))) [
        | inl here ↦
            let le = le_of_reaches key (group_entry start g) here in
            rw here (
              ap (λ p. (in_block key p.0, p.1))
                (read_group start g later (omega arith) inside split)
              ∙ ap (λ t. (t, none))
                  (in_block-find key g (Ascending-left g (flat gs) asc)
                      (All-append_left IsStored g (flat gs) stored)
                    ∙ ap (λ m. ok (answer m))
                        (sym (find_in_block key g (flat gs) filled.0 asc le))))
        | inr beyond ↦
            let lt = lt_of_reaches key (group_entry start g) beyond in
            rw (beyond, find_in_later key g (flat gs) asc lt) ih
      ]
