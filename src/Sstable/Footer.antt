-- ===== src/Sstable/Footer.antt =====
-- internal/sstable/footer.go: the last 48 bytes of a table.
pub mod RoundTrip
use pebble_db.Prelude.{
  ℕ, ◌+◌, ◌-◌, ltb, leb, ◌==◌, if◌then◌else◌, Bool, true, false, List, [], ◌∷◌, ◌++◌, length, take,
  drop,
}
use pebble_db.Bytes.{Bytes}
use pebble_db.Result.{Result, ok, err}
use pebble_db.Codec.{put_uint32, uint32, put_uint64, uint64}

abbrev pub footer_size : ℕ
footer_size = 48

abbrev pub magic_number : ℕ
magic_number = 0x88e241b3

abbrev pub current_version : ℕ
current_version = 2

pub data FooterError : Type 0 where
  seek_before_start : FooterError
  corrupt_footer : FooterError
  bad_magic : FooterError
  unsupported_version : FooterError

pub record Footer : Type 0 where
  pub index_offset : ℕ
  pub index_length : ℕ
  pub bloom_offset : ℕ
  pub bloom_length : ℕ
  pub version : ℕ
  pub magic : ℕ

-- Eight bytes at the end are reserved and zero.
unfoldable pub encode : Footer → Bytes
encode f =
    put_uint64 f.index_offset
    ++ (put_uint64 f.index_length
        ++ (put_uint64 f.bloom_offset
            ++ (put_uint64 f.bloom_length
                ++ (put_uint32 f.version
                    ++ (put_uint32 f.magic ++ (put_uint32 0 ++ put_uint32 0))))))

unfoldable pub decode : Bytes → Result FooterError Footer
decode bs =
    if ltb (length bs) footer_size
    then err corrupt_footer
    else ok (record {
      index_offset = uint64 bs;
      index_length = uint64 (drop 8 bs);
      bloom_offset = uint64 (drop 16 bs);
      bloom_length = uint64 (drop 24 bs);
      version = uint32 (drop 32 bs);
      magic = uint32 (drop 36 bs);
    })

unfoldable pub validate : Footer → Result FooterError Footer
validate f =
    if f.magic == magic_number
    then (if f.version == current_version then ok f else err unsupported_version)
    else err bad_magic

-- `ReadFooter`, on the file's content.
unfoldable pub read_footer : Bytes → Result FooterError Footer
unfolding decode validate
read_footer file =
    let buf = take footer_size (drop (length file - footer_size) file) in
    if ltb (length file) footer_size
    then err seek_before_start
    else elim (decode buf) [ err e ↦ err e | ok f ↦ validate f ]
