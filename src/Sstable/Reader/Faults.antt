-- ===== src/Sstable/Reader/Faults.antt =====
-- A reader that was opened had no fault.
use pebble_db.Prelude.{
  ℕ, ◌-◌, ◌^◌, ◌≡◌, refl, sym, ap, Bool-cases, inl, inr, Option, none, some, ltb, length,
}
use pebble_db.Bytes.{Bytes}
use pebble_db.Result.{Result, ok, err, ◌>>◌, >>=-eq-ok}
use pebble_db.Bloom
use pebble_db.Sstable.Footer.{Footer, footer_size}
use pebble_db.Sstable.Reader.{
  Reader, OpenError, OpenAnswers, not_failed, footer_in, check_bounds, read_index, read_bloom,
  open_reader,
}
use pebble_db.Sstable.Reader.Opens.{no_faults}

not_failed-eq : (o : Option ℕ) {u : Unit {0}} → not_failed o ≡ ok u → o ≡ none
not_failed-eq none h = refl
not_failed-eq (some e) h = cc h

read_bloom-eq :
    (file : Bytes) (f : Footer) (fault : Option ℕ) {x : Option Bloom.Filter}
    → read_bloom file f fault ≡ ok x
    → read_bloom file f none ≡ ok x
unfolding read_bloom
read_bloom-eq file f none h = h
read_bloom-eq file f (some e) h = elim (Bool-cases (ltb 0 f.bloom_length)) [
  | inr absent ↦ rw absent (rw absent at h)
  | inl present ↦ elim (Bool-cases (ltb f.bloom_length (2 ^ 63))) [
    | inl short ↦ cc (rw (present, short) at h)
    | inr long ↦ cc (rw (present, long) at h)
  ]
]

abbrev file_in : Bytes → Result OpenError Reader → Bytes
file_in file (ok r) = r.file
file_in file (err e) = file

-- What `OpenReader` gives where it succeeds is what it gives without faults, and it has the file that was
-- opened.
pub open_reader-eq :
    (file : Bytes) (file_id : ℕ) (a : OpenAnswers) {r : Reader}
    → open_reader file file_id a ≡ ok r
    → (open_reader file file_id no_faults ≡ ok r) × (r.file ≡ file)
unfolding open_reader
open_reader-eq file file_id a h =
    let size = length file - footer_size in
    let open_file = not_failed a.open' in
    let (f, head, rest) = >>=-eq-ok (open_file >> footer_in file) _ h in
    let (u, opened, footer) = >>=-eq-ok open_file _ head in
    let bounds_checked = not_failed a.stat >> check_bounds f size in
    let sought = bounds_checked >> not_failed a.seek in
    let readable = sought >> not_failed a.index in
    let (index, front, behind) = >>=-eq-ok (readable >> read_index file f) _ rest in
    let (u4, reads, indexed) = >>=-eq-ok readable _ front in
    let (u3, seeks, no_read) = >>=-eq-ok sought _ reads in
    let (u2, checks, no_seek) = >>=-eq-ok bounds_checked _ seeks in
    let (u1, no_stat, bounds) = >>=-eq-ok (not_failed a.stat) _ checks in
    let (filter, bloom, last) = >>=-eq-ok (read_bloom file f a.bloom) _ behind in
    (
      rw (footer, bounds, indexed, read_bloom-eq file f a.bloom bloom) last,
      sym (ap (file_in file) last),
    )
