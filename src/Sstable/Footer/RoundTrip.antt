-- ===== src/Sstable/Footer/RoundTrip.antt =====
-- A footer is read back from the end of the file.
use native.Mathlib.Nat.{mod-eq_of_lt}
use pebble_db.Prelude.{
  ℕ, ◌-◌, ◌^◌, ◌<◌, ◌≡◌, refl, ap, ◌∙◌, ltb, ◌==◌, if◌then◌else◌, false, ◌++◌, length, take, drop,
  arith, drop-append, length-append, take_all,
}
use pebble_db.Bytes.{Bytes}
use pebble_db.Result.{ok, err}
use pebble_db.Codec.{put_uint32, uint32, put_uint64, uint64}
use pebble_db.Codec.Laws.{uint64-put, uint32-put}
use pebble_db.Sstable.Footer.{
  Footer, bad_magic, unsupported_version, magic_number, current_version, encode, decode, validate,
  read_footer,
}

-- Numbers of the widths that the footer gives them.
pub record Fits (f : Footer) : Type 0 where
  pub index_offset : f.index_offset < 2 ^ 64
  pub index_length : f.index_length < 2 ^ 64
  pub bloom_offset : f.bloom_offset < 2 ^ 64
  pub bloom_length : f.bloom_length < 2 ^ 64
  pub version : f.version < 2 ^ 32
  pub magic : f.magic < 2 ^ 32

pub length-encode : (f : Footer) → length (encode f) ≡ 48
unfolding encode put_uint64 put_uint32
length-encode f = refl

module _ (f : Footer) where
  behind : ℕ → Bytes
  behind n = drop n (encode f)

  -- The fields, each behind those before it.
  fields :
      (behind 0 ≡ put_uint64 f.index_offset ++ behind 8)
      × (behind 8 ≡ put_uint64 f.index_length ++ behind 16)
      × (behind 16 ≡ put_uint64 f.bloom_offset ++ behind 24)
      × (behind 24 ≡ put_uint64 f.bloom_length ++ behind 32)
      × (behind 32 ≡ put_uint32 f.version ++ behind 36)
      × (behind 36 ≡ put_uint32 f.magic ++ behind 40)
  unfolding behind encode put_uint64 put_uint32
  fields = (refl, refl, refl, refl, refl, refl)

  decode-encode : Fits f → decode (encode f) ≡ ok f
  unfolding decode behind
  decode-encode h =
      let (a, b, c, d, v, m) = fields in
      rw
        (
          length-encode f,
          (ap uint64 a ∙ uint64-put f.index_offset (behind 8) h.index_offset),
          (ap uint64 b ∙ uint64-put f.index_length (behind 16) h.index_length),
          (ap uint64 c ∙ uint64-put f.bloom_offset (behind 24) h.bloom_offset),
          (ap uint64 d ∙ uint64-put f.bloom_length (behind 32) h.bloom_length),
          (ap uint32 v ∙ uint32-put f.version (behind 36) ∙ mod-eq_of_lt h.version),
          (ap uint32 m ∙ uint32-put f.magic (behind 40) ∙ mod-eq_of_lt h.magic),
        )
        refl

  -- The footer at the end of a file is read back, whatever stands before it, if it has the magic
  -- number and the current version; with another magic number it is refused.
  pub read_footer-encode :
      (before : Bytes)
      → Fits f
      → read_footer (before ++ encode f) ≡ (
          if f.magic == magic_number
          then (if f.version == current_version then ok f else err unsupported_version)
          else err bad_magic)
  unfolding read_footer validate
  read_footer-encode before h =
      let size = length-encode f in
      let whole = length-append before (encode f) in
      let at : drop (length (before ++ encode f) - 48) (before ++ encode f) ≡ encode f =
        drop-append (length (before ++ encode f) - 48) before (encode f)
          (omega (arith, size, whole)) in
      let tail : take 48 (encode f) ≡ encode f = take_all 48 (encode f) (omega (arith, size)) in
      let long : ltb (length (before ++ encode f)) 48 ≡ false = ground (arith, size, whole) in
      rw (long, at, tail, decode-encode h) refl
