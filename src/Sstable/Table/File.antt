-- ===== src/Sstable/Table/File.antt =====
-- The file that a writer leaves: blocks, index, filter and footer, one behind another.
use pebble_db.Prelude.{
  ℕ, ◌+◌, ◌%◌, ◌^◌, ◌≡◌, refl, sym, ap, subst, ◌∙◌, Option, none, some, List, [], ◌∷◌, ◌++◌, length,
  arith, append_assoc, append-nil,
}
use pebble_db.Bytes.{Bytes}
use pebble_db.Result.{on_success-eq}
use pebble_db.Wal.Log.{Answer, next_answer, later_answers}
use pebble_db.Bloom
use pebble_db.Iterator.{Entry}
use pebble_db.Sstable.Index
use pebble_db.Sstable.Footer
use pebble_db.Sstable.Reader.Lookup.{block_bytes}
use pebble_db.Sstable.Groups.{flat, index_of, AllFilled}
use pebble_db.Sstable.Writer.{
  Writer, WriterError, write_part, write_tail, CloseAnswers, footer_of, finish, close,
}
use pebble_db.Sstable.Writer.Layout.{filled, Laid, Regrouped, add-Laid, write-eq, flush_block-Laid}
use pebble_db.Sstable.Table.{add_entries}

-- The file of a table with these blocks and this filter.
unfoldable pub footer_for : List (List Entry) → Bloom.Filter → Footer.Footer
footer_for gs f =
    let index = Index.encode (index_of 0 gs) in
    let data_end = length (block_bytes (flat gs)) in
    record {
      index_offset = data_end % 2 ^ 64;
      index_length = length index;
      bloom_offset = (data_end % 2 ^ 64 + length index) % 2 ^ 64;
      bloom_length = length (Bloom.encode f);
      version = Footer.current_version;
      magic = Footer.magic_number;
    }

unfoldable pub file_of : List (List Entry) → Bloom.Filter → Bytes
unfolding footer_for
file_of gs f =
    ((block_bytes (flat gs) ++ Index.encode (index_of 0 gs)) ++ Bloom.encode f)
    ++ Footer.encode (footer_for gs f)

-- A writer after a part has gone to the file.
abbrev part : Writer → Bytes → Writer
part w buf = record w { file = w.file ++ buf; offset = (w.offset + length buf) % 2 ^ 64 }

abbrev part_index : Writer → Writer
part_index w = part w (Index.encode w.index)

abbrev part_bloom : Writer → Writer
part_bloom w = part w (Bloom.encode w.bloom)

abbrev tail_after : ℕ → ℕ → Writer → Bytes
tail_after index_offset bloom_offset w =
    w.file ++ Footer.encode (footer_of w index_offset bloom_offset)

-- The file after the writes of `Close`, by the writer before them.
abbrev tail_of : Writer → Bytes
tail_of w = tail_after w.offset (part_index w).offset (part_bloom (part_index w))

finish-eq :
    (a : CloseAnswers) (p : Writer × Option WriterError)
    → (finish a p).error ≡ none
    → (w : Writer) × (p ≡ (w, none))
      × (finish a p ≡ record { error = none; tmp = none; final = some w.file })
unfolding finish
finish-eq a (w, some e) h = cc h
finish-eq a (w, none) h = (w, refl, ground (arith, h))

module _ (start : Bloom.Filter) where
  pub add_entries-Laid :
      (w : Writer) (before es : List Entry) (as' : List Answer) {w' : Writer}
      → Regrouped start w before
      → add_entries w es as' ≡ (w', none)
      → Regrouped start w' (before ++ es)
  unfolding add_entries
  add_entries-Laid w before [] as' r h =
      subst (λ x. Regrouped start x (before ++ [])) (ap (λ p. p.0) h)
        (subst (Regrouped start w) (sym (append-nil before)) r)
  add_entries-Laid w before (e ∷ es) as' r h =
      let (w1, first, rest) = on_success-eq _ _ _ h in
      subst (Regrouped start _) (append_assoc before (e ∷ []) es) (
        add_entries-Laid w1 (before ++ e ∷ []) es (later_answers as')
          (add-Laid start w before e (next_answer as') r first) rest)

  write_part-eq :
      (w : Writer) (buf : Bytes) (a : Answer) {w' : Writer}
      → write_part w buf a ≡ (w', none)
      → w' ≡ part w buf
  unfolding write_part
  write_part-eq w buf a h =
      let (w1, wrote, rest) = on_success-eq _ _ _ h in
      sym (ap (λ p. p.0) rest)
      ∙ ap (λ (x : Writer). record x { offset = (x.offset + length buf) % 2 ^ 64 })
          (write-eq w buf a wrote)

  tail_of-eq :
      (w : Writer) (gs : List (List Entry))
      → Laid start w gs []
      → tail_of w ≡ file_of gs (filled start (flat gs))
  unfolding file_of footer_for
  tail_of-eq w gs l = rw (l.offset, l.file, l.index, l.bloom, append-nil (flat gs)) refl

  -- Where every write succeeds, the file is that of all the entries, in some blocks.
  pub write_tail-file :
      (w : Writer) (es : List Entry) (a : CloseAnswers) {w' : Writer}
      → Regrouped start w es
      → write_tail w a ≡ (w', none)
      → (gs : List (List Entry)) × (flat gs ≡ es)
        × AllFilled gs
        × (w'.file ≡ file_of gs (filled start (flat gs)))
  unfolding write_tail
  write_tail-file w es a (gs, cur, l, same) h =
      let (w1, blocks, h1) = on_success-eq _ _ _ h in
      let (w2, index, h2) = on_success-eq _ _ _ h1 in
      let (w3, bloom, h3) = on_success-eq _ _ _ h2 in
      let (gs', laid, whole) = flush_block-Laid start w a.block gs cur l blocks in
      let e2 = write_part-eq w1 (Index.encode w1.index) a.index index in
      let e3 = write_part-eq w2 (Bloom.encode w2.bloom) a.bloom bloom in
      let e4 = write-eq w3 (Footer.encode (footer_of w3 w1.offset w2.offset)) a.footer h3 in
      (
        gs',
        whole ∙ same,
        laid.no_empty,
        ap (λ (x : Writer). x.file) e4
            ∙ ap (tail_after w1.offset w2.offset) e3
            ∙ ap (λ (x : Writer). tail_after w1.offset x.offset (part_bloom x)) e2
            ∙ tail_of-eq w1 gs' laid,
      )

  -- A close that reports no error leaves that file under the final name, and no temporary one.
  pub close-file :
      (w : Writer) (es : List Entry) (a : CloseAnswers)
      → Regrouped start w es
      → (close w a).error ≡ none
      → (gs : List (List Entry)) × (flat gs ≡ es)
        × AllFilled gs
        × (close w a ≡ record {
          error = none;
          tmp = none;
          final = some (file_of gs (filled start (flat gs)));
        })
  unfolding close
  close-file w es a r h =
      let (w', tail, same) = finish-eq a (write_tail w a) h in
      let (gs, whole, no_empty, file) = write_tail-file w es a r tail in
      (
        gs,
        whole,
        no_empty,
        same ∙ ap (λ f. record { error = none; tmp = none; final = some f }) file,
      )
