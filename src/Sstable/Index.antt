-- ===== src/Sstable/Index.antt =====
-- internal/sstable/index.go, and `decodeIndex` of internal/sstable/reader.go.
pub mod RoundTrip
use pebble_db.Prelude.{
  ℕ, zero, suc, ◌+◌, ltb, leb, ◌==◌, if◌then◌else◌, Bool, true, false, Option, none, some, List, [],
  ◌∷◌, ◌++◌, length, take, drop,
}
use pebble_db.Bytes.{Bytes}
use pebble_db.Result.{Result, ok, err}
use pebble_db.Codec.{put_uint32, uint32, put_uint64, uint64}

-- Where a block is. A nil key and an empty one are never told apart.
pub record IndexEntry : Type 0 where
  pub last_key : Bytes
  pub offset : ℕ
  pub length' : ℕ

unfoldable pub entry_bytes : IndexEntry → Bytes
entry_bytes e =
    put_uint32 (length e.last_key) ++ (e.last_key ++ (put_uint64 e.offset ++ put_uint64 e.length'))

-- `Encode`
unfoldable pub encode : List IndexEntry → Bytes
unfolding entry_bytes
encode [] = []
encode (e ∷ es) = entry_bytes e ++ encode es

pub data IndexError : Type 0 where
  corrupt_index : IndexError

unfoldable pub prepend :
    IndexEntry → Result IndexError (List IndexEntry) → Result IndexError (List IndexEntry)
prepend e (err x) = err x
prepend e (ok es) = ok (e ∷ es)

-- The loop of `decodeIndex`, on the bytes from `pos` on. A turn consumes twenty bytes or more, so one
-- turn for each byte is enough; with no fuel left the loop is taken to be over.
unfoldable pub decode_loop : ℕ → Bytes → Result IndexError (List IndexEntry)
unfolding prepend
decode_loop zero bs = ok []
decode_loop (suc fuel) bs =
    let key_len = uint32 bs in
    let behind = drop (4 + key_len) bs in
    let e : IndexEntry = record {
      last_key = take key_len (drop 4 bs);
      offset = uint64 behind;
      length' = uint64 (drop 8 behind);
    } in
    let later = decode_loop fuel (drop (4 + key_len + 16) bs) in
    if length bs == 0
    then ok []
    else if ltb (length bs) 4
    then err corrupt_index
    else if ltb (length bs) (4 + key_len)
    then err corrupt_index
    else if ltb (length bs) (4 + key_len + 16)
    then err corrupt_index
    else prepend e later

unfoldable pub decode_index : Bytes → Result IndexError (List IndexEntry)
unfolding decode_loop
decode_index bs = decode_loop (length bs) bs
