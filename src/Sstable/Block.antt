-- ===== src/Sstable/Block.antt =====
-- internal/sstable/block.go: a block is a sequence keyLen(4) | key | valueLen(4) | value | tombstone(1).
pub mod RoundTrip
use pebble_db.Prelude.{
  ℕ, zero, suc, ◌+◌, ◌^◌, ltb, leb, ◌==◌, ◌||◌, if◌then◌else◌, Bool, true, false, Option, none,
  some, List, [], ◌∷◌, ◌++◌, length, take, drop,
}
use pebble_db.Bytes.{Bytes, copy_slice, compare_bytes}
use pebble_db.Bytes.Order.{is_lt}
use pebble_db.Result.{Result, ok, err}
use pebble_db.Codec.{put_uint32, uint32}
use pebble_db.Iterator.Merge.{as_bytes}

pub data BlockError : Type 0 where
  key_too_large : BlockError

unfoldable pub entry_bytes : Bytes → Bytes → Bool → Bytes
entry_bytes key value tombstone =
    put_uint32 (length key)
    ++ (key ++ (put_uint32 (length value) ++ (value ++ (if tombstone then 1 else 0) ∷ [])))

-- `Append`, on the block's data.
unfoldable pub append_entry : Bytes → Bytes → Bytes → Bool → Result BlockError Bytes
unfolding entry_bytes
append_entry data' key value tombstone =
    if leb (2 ^ 32) (length key) || leb (2 ^ 32) (length value)
    then err key_too_large
    else ok (data' ++ entry_bytes key value tombstone)

pub record BlockIterator : Type 0 where
  pub data' : Bytes
  pub pos : ℕ
  pub key : Option Bytes
  pub val : Option Bytes
  pub tombstone : Bool

abbrev pub new_block_iterator : Bytes → BlockIterator
new_block_iterator bs = record { data' = bs; pos = 0; key = none; val = none; tombstone = false }

abbrev pub byte_at : Bytes → ℕ
byte_at [] = 0
byte_at (b ∷ _) = b

-- The three parts of `Next`: the key, the value, the tombstone. A part that fails leaves what the parts
-- before it have set.
pub next_tombstone : BlockIterator → BlockIterator × Bool
next_tombstone it =
    if leb (length it.data') it.pos
    then (it, false)
    else (record it { pos = it.pos + 1; tombstone = byte_at (drop it.pos it.data') == 1 }, true)

pub next_value : BlockIterator → BlockIterator × Bool
unfolding next_tombstone
next_value it =
    let val_len = uint32 (drop it.pos it.data') in
    let at = it.pos + 4 in
    let read = record it { pos = at + val_len; val = some (take val_len (drop at it.data')) } in
    if ltb (length it.data') (it.pos + 4)
    then (it, false)
    else if ltb (length it.data') (at + val_len)
    then (record it { pos = at }, false)
    else next_tombstone read

unfoldable pub next : BlockIterator → BlockIterator × Bool
unfolding next_value
next it =
    let key_len = uint32 (drop it.pos it.data') in
    let at = it.pos + 4 in
    let read = record it { pos = at + key_len; key = some (take key_len (drop at it.data')) } in
    if ltb (length it.data') (it.pos + 4)
    then (it, false)
    else if ltb (length it.data') (at + key_len)
    then (record it { pos = at }, false)
    else next_value read

-- `Key` and `Value`: a copy, which is nil for an empty slice too.
unfoldable pub copied : Option Bytes → Option Bytes
copied none = none
copied (some b) = copy_slice b

-- The loop of `Seek`; each turn moves the position, so the block's length is enough fuel.
pub seek_loop : ℕ → Bytes → BlockIterator → BlockIterator × Bool
unfolding next
seek_loop zero target it = (record it { key = none; val = none }, false)
seek_loop (suc fuel) target it =
    let (it', more) = next it in
    let later = seek_loop fuel target it' in
    if more
    then (if is_lt (compare_bytes (as_bytes it'.key) target) then later else (it', true))
    else (record it' { key = none; val = none }, false)

pub seek : BlockIterator → Bytes → BlockIterator × Bool
unfolding seek_loop
seek it target =
    seek_loop (length it.data' + 1) target
      (record it { pos = 0; key = none; val = none; tombstone = false })
