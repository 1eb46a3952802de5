-- ===== src/Sstable/Table/Built.antt =====
-- A table that was made without a reported error has the entries that it was made from.
use pebble_db.Prelude.{
  ℕ, ◌+◌, ◌^◌, ◌<◌, ◌≡◌, refl, sym, ap, subst, ◌∙◌, inl, inr, Option, none, some, Option-cases,
  List, [], ◌∷◌, ◌++◌, length, arith, All, All-map, All-append_left, All-append_right, append_assoc,
  length-append,
}
use pebble_db.Bytes.{Bytes}
use pebble_db.Result.{Result, ok, err, on_success-eq}
use pebble_db.Bloom
use pebble_db.Bloom.Member.{IsWhole}
use pebble_db.Bloom.New.{new-IsFresh}
use pebble_db.Bloom.Encoding.{decode-encode, length-encode}
use pebble_db.Iterator.{Entry}
use pebble_db.Iterator.Merge.Lists.{find}
use pebble_db.Iterator.Merge.Output.{Ascending}
use pebble_db.Memtable.Lookup.{answer}
use pebble_db.Sstable.Index
use pebble_db.Sstable.Index.RoundTrip as IndexTrip
use pebble_db.Sstable.Footer
use pebble_db.Sstable.Footer.RoundTrip as FooterTrip
use pebble_db.Sstable.Cache.{Lru}
use pebble_db.Sstable.Reader.{Reader, OpenAnswers, OpenError, open_reader, get}
use pebble_db.Sstable.Reader.Lookup.{IsStored, block_bytes, block_bytes-append}
use pebble_db.Sstable.Reader.Opens.{open_reader-parts}
use pebble_db.Sstable.Reader.Faults.{open_reader-eq}
use pebble_db.Sstable.Groups.{flat, index_of, AllFilled, last_of-holds}
use pebble_db.Sstable.Filter.{filled-Same}
use pebble_db.Sstable.Writer.{Writer, WriterError, at_least_one, new_writer, close}
use pebble_db.Sstable.Writer.Layout.{filled, Laid, Regrouped}
use pebble_db.Sstable.Table.{TableAnswers, default_block_size, opened, reopened, added, make_table}
use pebble_db.Sstable.Table.File.{file_of, footer_for, add_entries-Laid, close-file}
use pebble_db.Sstable.Table.Facts.{IsTableOf, table-get}

index_of-Fits :
    (start : ℕ) (gs : List (List Entry))
    → AllFilled gs
    → All IsStored (flat gs)
    → length (block_bytes (flat gs)) < 2 ^ 64
    → All IndexTrip.Fits (index_of start gs)
unfolding flat index_of
index_of-Fits start [] filled' stored small = tt
index_of-Fits start (g ∷ gs) filled' stored small =
    let whole : length (block_bytes (g ++ flat gs))
        ≡ length (block_bytes g) + length (block_bytes (flat gs)) =
      ap (λ (b : Bytes). length b) (block_bytes-append g (flat gs))
      ∙ length-append (block_bytes g) (block_bytes (flat gs)) in
    let keys : All (λ (e : Entry). length e.key < 2 ^ 32) g =
      All-map IsStored (λ (e : Entry). length e.key < 2 ^ 32) g (λ e h. h.key_fits)
        (All-append_left IsStored g (flat gs) stored) in
    (
      record {
        key = last_of-holds (λ k. length k < 2 ^ 32) g filled'.0 keys;
        offset = omega arith;
        length' = omega (arith, whole, small);
      },
      index_of-Fits (start + length (block_bytes g)) gs filled'.1
          (All-append_right IsStored g (flat gs) stored) (omega (arith, whole, small)),
    )

-- A filter whose bits fit the numbers of the encoding.
pub record FitsFilter (f : Bloom.Filter) : Type 0 where
  pub whole : IsWhole f
  pub some_bits : 0 < f.m
  pub bits_fit : f.m < 2 ^ 32
  pub hashes : 0 < f.k
  pub hashes_fit : f.k < 2 ^ 32

ok-inj : {E A : Type 0} {a b : A} → ◌≡◌ {A = Result E A} (ok a) (ok b) → a ≡ b
ok-inj h = cc h

opened-eq : (x : Result OpenError Reader) (r : Reader) → opened x ≡ ok r → x ≡ ok r
opened-eq (ok r') r h = ap ok (ok-inj h)
opened-eq (err e) r h = cc h

module _ (start : Bloom.Filter) (fits : FitsFilter start) where
  -- A file in the writer's layout is opened as a table of its entries.
  open_reader-IsTableOf :
      (gs : List (List Entry)) (file_id : ℕ) (a : OpenAnswers) (r : Reader)
      → AllFilled gs
      → All IsStored (flat gs)
      → length r.file < 2 ^ 62
      → open_reader (file_of gs (filled start (flat gs))) file_id a ≡ ok r
      → IsTableOf r (flat gs)
  unfolding file_of footer_for
  open_reader-IsTableOf gs file_id a r no_empty stored small h =
      let f = filled start (flat gs) in
      let same = filled-Same start (flat gs) fits.whole fits.some_bits in
      let (opens, file) = open_reader-eq _ file_id a h in
      let data' = block_bytes (flat gs) in
      let index = index_of 0 gs in
      let front = data' ++ Index.encode index in
      let filter = Bloom.encode f in
      let tail = Footer.encode (footer_for gs f) in
      let total : length r.file ≡ length data' + length (Index.encode index) + length filter + 48 =
        ap (λ (b : Bytes). length b) file
        ∙ omega (
          arith,
          length-append (front ++ filter) tail,
          length-append front filter,
          length-append data' (Index.encode index),
          FooterTrip.length-encode (footer_for gs f),
        ) in
      let decoded : Bloom.decode filter ≡ some (record f { n = 0 }) =
        decode-encode f (omega (arith, same.m, fits.some_bits))
          (omega (arith, same.m, fits.bits_fit)) (omega (arith, same.k, fits.hashes))
          (omega (arith, same.k, fits.hashes_fit)) (omega (arith, same.whole.size)) in
      let opened' =
        open_reader-parts data' index filter (omega (arith, total, small)) file_id
          (record f { n = 0 }) (index_of-Fits 0 gs no_empty stored (omega (arith, total, small)))
          (omega (arith, length-encode f)) decoded in
      let whole : (front ++ filter) ++ tail ≡ data' ++ (Index.encode index ++ (filter ++ tail)) =
        append_assoc front filter tail ∙ append_assoc data' (Index.encode index) (filter ++ tail) in
      subst (λ x. IsTableOf x (flat gs)) (ok-inj (sym opened' ∙ opens))
        (record {
          groups = gs;
          rest = Index.encode index ++ (filter ++ tail);
          start = start;
          whole = refl;
          no_empty = no_empty;
          file = whole;
          index = refl;
          bloom = refl;
          fresh = fits.whole;
          bits = fits.some_bits;
          not_closed = refl;
          small = omega (arith, ap (λ (b : Bytes). length b) file, small);
        })

  reopened-IsTableOf :
      (w : Writer) (es : List Entry) (file_id : ℕ) (a : TableAnswers) (r : Reader)
      → Regrouped start w es
      → All IsStored es
      → length r.file < 2 ^ 62
      → added (w, none) file_id a ≡ ok r
      → IsTableOf r es
  unfolding added reopened
  reopened-IsTableOf w es file_id a r laid stored small h =
      elim (Option-cases (close w a.close').error) [
        | inr (e, failed') ↦ cc (rw failed' at h)
        | inl fine ↦
            let (gs, whole, no_empty, left) = close-file start w es a.close' laid fine in
            subst (IsTableOf r) whole (
              open_reader-IsTableOf gs file_id a.open' r no_empty
                (subst (All IsStored) (sym whole) stored) small
                (opened-eq (open_reader (file_of gs (filled start (flat gs))) file_id a.open') r
                  (rw left at h)))
      ]

added-eq :
    (p : Writer × Option WriterError) (file_id : ℕ) (a : TableAnswers) {r : Reader}
    → added p file_id a ≡ ok r
    → (w : Writer) × (p ≡ (w, none)) × (added (w, none) file_id a ≡ ok r)
unfolding added
added-eq (w, none) file_id a h = (w, refl, h)
added-eq (w, some e) file_id a h = cc h

new_writer-Regrouped :
    (sizes : ℕ → ℕ × ℕ) (block_size expected : ℕ) {w : Writer}
    → new_writer sizes block_size expected ≡ (w, none)
    → Regrouped (Bloom.new (sizes (at_least_one expected)).0 (sizes (at_least_one expected)).1) w []
unfolding new_writer
new_writer-Regrouped sizes block_size expected h =
    let at = sizes (at_least_one expected) in
    let start = Bloom.new at.0 at.1 in
    (
      [],
      [],
      subst (λ x. Laid start x [] []) (ap (λ p. p.0) h)
          (record {
            file = unfold block_bytes flat in refl;
            current' = unfold block_bytes in refl;
            index = unfold index_of in refl;
            offset = omega arith;
            bloom = unfold filled flat in refl;
            last = inl refl;
            no_empty = tt;
          }),
      unfold flat in refl,
    )

-- A table that was made without a reported error, whatever the operating system answered on the way,
-- is laid out as its lookups need it.
pub make_table-IsTableOf :
    (sizes : ℕ → ℕ × ℕ) (file_id expected : ℕ) (es : List Entry) (a : TableAnswers) (r : Reader)
    → 0 < (sizes (at_least_one expected)).0
    → (sizes (at_least_one expected)).0 + 8 < 2 ^ 32
    → All IsStored es
    → length r.file < 2 ^ 62
    → make_table sizes file_id expected es a ≡ ok r
    → IsTableOf r es
unfolding make_table
make_table-IsTableOf sizes file_id expected es a r pos fits stored small h =
    let at = sizes (at_least_one expected) in
    let fresh = new-IsFresh at.0 at.1 pos in
    let start = Bloom.new at.0 at.1 in
    let start_fits : FitsFilter start = record {
      whole = fresh.whole;
      some_bits = fresh.some_bits;
      bits_fit = omega (arith, fresh.not_wider, fits);
      hashes = fresh.hashes;
      hashes_fit = omega (arith, fresh.few_hashes);
    } in
    let (w, made, rest) = added-eq _ file_id a h in
    let (w0, new, adds) = on_success-eq (new_writer sizes default_block_size expected) _ _ made in
    reopened-IsTableOf start start_fits w es file_id a r
      (add_entries-Laid start w0 [] es a.adds
        (new_writer-Regrouped sizes default_block_size expected new) adds)
      stored small rest

-- If making a table reports no error, whatever the operating system answered on the way, a lookup of
-- any key in it finds what the entries have: the value, a tombstone, or nothing. The entries ascend and
-- are as a memtable hands them over, the filter has bits and fits its 32-bit numbers, and the file is
-- not too large. How the entries are split into blocks plays no part.
pub make_table-get :
    {L : Type 0} (lru : Lru L) (sizes : ℕ → ℕ × ℕ) (file_id expected : ℕ) (es : List Entry)
    (a : TableAnswers) (r : Reader) (key : Bytes)
    → 0 < (sizes (at_least_one expected)).0
    → (sizes (at_least_one expected)).0 + 8 < 2 ^ 32
    → Ascending es
    → All IsStored es
    → length r.file < 2 ^ 62
    → make_table sizes file_id expected es a ≡ ok r
    → get lru r none key none ≡ (ok (answer (find key es)), none)
make_table-get lru sizes file_id expected es a r key pos fits asc stored small h =
    table-get lru r es key asc stored
      (make_table-IsTableOf sizes file_id expected es a r pos fits stored small h)
