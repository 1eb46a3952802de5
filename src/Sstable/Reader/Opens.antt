-- ===== src/Sstable/Reader/Opens.antt =====
-- A file with an index, a filter and a footer behind its data is opened with that index and filter.
use pebble_db.Prelude.{
  ℕ, ◌+◌, ◌-◌, ◌%◌, ◌^◌, ◌<◌, ◌≡◌, refl, ap, ◌∙◌, false, none, some, List, ◌++◌, length, drop,
  arith, All, length-append, append_assoc, drop-append, take-append, le→leb, lt→ltb,
}
use pebble_db.Bytes.{Bytes}
use pebble_db.Result.{ok}
use pebble_db.Codec.Laws.{read_full-append}
use pebble_db.Bloom
use pebble_db.Sstable.Index.{IndexEntry, decode_index}
use pebble_db.Sstable.Index
use pebble_db.Sstable.Index.RoundTrip.{decode_index-encode}
use pebble_db.Sstable.Index.RoundTrip as IndexTrip
use pebble_db.Sstable.Footer.{Footer, read_footer, magic_number, current_version}
use pebble_db.Sstable.Footer
use pebble_db.Sstable.Footer.RoundTrip.{Fits, length-encode, read_footer-encode}
use pebble_db.Sstable.Reader.{
  OpenAnswers, footer_in, check_bounds, index_end, read_index, read_bloom, open_reader,
}

abbrev pub no_faults : OpenAnswers
no_faults = record { open' = none; stat = none; seek = none; index = none; bloom = none }

-- Data, an index and a filter, with the footer that says where they are.
module _ (before : Bytes) (index : List IndexEntry) (filter : Bytes) where
  abbrev pub parts_end : ℕ
  parts_end = length before + length (Index.encode index) + length filter

  abbrev pub footer_at : Footer
  footer_at = record {
    index_offset = length before % 2 ^ 64;
    index_length = length (Index.encode index);
    bloom_offset = (length before % 2 ^ 64 + length (Index.encode index)) % 2 ^ 64;
    bloom_length = length filter;
    version = current_version;
    magic = magic_number;
  }

  abbrev pub parts : Bytes
  parts = (before ++ Index.encode index) ++ filter

  module _ (small : parts_end < 2 ^ 63 - 48) where
    footer_in-parts : footer_in (parts ++ Footer.encode footer_at) ≡ ok footer_at
    unfolding footer_in
    footer_in-parts =
        let fits : Fits footer_at = record {
          index_offset = omega (arith, small);
          index_length = omega (arith, small);
          bloom_offset = omega (arith, small);
          bloom_length = omega (arith, small);
          version = omega arith;
          magic = omega arith;
        } in
        rw (read_footer-encode footer_at parts fits) refl

    check_bounds-parts : check_bounds footer_at parts_end ≡ ok tt
    unfolding check_bounds index_end
    check_bounds-parts = ground (arith, small)

    read_index-parts :
        (rest : Bytes)
        → All IndexTrip.Fits index
        → read_index ((before ++ Index.encode index) ++ rest) footer_at ≡ ok index
    unfolding read_index
    read_index-parts rest fits =
        let encoded = Index.encode index in
        let whole : (before ++ encoded) ++ rest ≡ before ++ (encoded ++ rest) =
          append_assoc before encoded rest in
        let start : length before % 2 ^ 64 ≡ length before = omega (arith, small) in
        let at : drop (length before) ((before ++ encoded) ++ rest) ≡ encoded ++ rest =
          ap (drop (length before)) whole
          ∙ drop-append (length before) before (encoded ++ rest) refl in
        rw
          (
            lt→ltb (length encoded) (2 ^ 63) (omega (arith, small)),
            start,
            at,
            read_full-append (length encoded) encoded rest refl,
            decode_index-encode index fits,
          )
          refl

    read_bloom-parts :
        (rest : Bytes) (f : Bloom.Filter)
        → 0 < length filter
        → Bloom.decode filter ≡ some f
        → read_bloom (parts ++ rest) footer_at none ≡ ok (some f)
    unfolding read_bloom
    read_bloom-parts rest f nonempty decoded =
        let front = before ++ Index.encode index in
        let size : length front ≡ length before + length (Index.encode index) =
          length-append before (Index.encode index) in
        let start : (length before % 2 ^ 64 + length (Index.encode index)) % 2 ^ 64 ≡ length front =
          omega (arith, small, size) in
        let at : drop (length front) (parts ++ rest) ≡ filter ++ rest =
          ap (drop (length front)) (append_assoc front filter rest)
          ∙ drop-append (length front) front (filter ++ rest) refl in
        rw
          (
            lt→ltb 0 (length filter) nonempty,
            lt→ltb (length filter) (2 ^ 63) (omega (arith, small)),
            start,
            at,
            le→leb (length filter) (length (filter ++ rest))
                (omega (arith, length-append filter rest)),
            take-append (length filter) filter rest refl,
            decoded,
          )
          refl

    -- The file is opened, with the index as it was encoded and the filter as it is decoded.
    pub open_reader-parts :
        (file_id : ℕ) (f : Bloom.Filter)
        → All IndexTrip.Fits index
        → 0 < length filter
        → Bloom.decode filter ≡ some f
        → open_reader (parts ++ Footer.encode footer_at) file_id no_faults
          ≡ ok (record {
            file = parts ++ Footer.encode footer_at;
            footer = footer_at;
            index = index;
            bloom = some f;
            file_id = file_id;
            file_closed = false;
          })
    unfolding open_reader
    open_reader-parts file_id f fits nonempty decoded =
        let tail = Footer.encode footer_at in
        let front = before ++ Index.encode index in
        let size : length (parts ++ tail) - 48 ≡ parts_end = omega (
          arith,
          length-append parts tail,
          length-append front filter,
          length-append before (Index.encode index),
          length-encode footer_at,
        ) in
        let index' : read_index (parts ++ tail) footer_at ≡ ok index =
          ap (λ b. read_index b footer_at) (append_assoc front filter tail)
          ∙ read_index-parts (filter ++ tail) fits in
        rw
          (
            footer_in-parts,
            size,
            check_bounds-parts,
            index',
            read_bloom-parts tail f nonempty decoded,
          )
          refl
