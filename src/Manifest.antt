-- ===== src/Manifest.antt =====
-- The manifest, the log of the live tables: internal/manifest/format.go and manifest.go. The live set
-- is a list of its ids; the lock, which serialises the operations, is not modelled.
pub mod Records
pub mod Replay
pub mod Commits
use pebble_db.Prelude.{
  ℕ, zero, suc, ◌+◌, ◌-◌, ◌*◌, ◌%◌, ◌^◌, ltb, leb, ◌==◌, ◌||◌, if◌then◌else◌, Bool, true, false,
  Option, none, some, List, [], ◌∷◌, ◌++◌, length, take, drop,
}
use pebble_db.Bytes.{Bytes}
use pebble_db.Result.{Result, ok, err}
use pebble_db.Codec.{
  ReadError, eof, unexpected_eof, put_uint32, uint32, put_uint64, uint64, read_full, crc32,
}

-- What the functions of the manifest fail with: `io.ErrUnexpectedEOF`, or a slice out of range.
pub data ManifestError : Type 0 where
  unexpected : ManifestError
  panics : ManifestError

abbrev pub tag_new_file : ℕ
tag_new_file = 1

abbrev pub tag_delete_file : ℕ
tag_delete_file = 2

abbrev pub tag_set_file_set : ℕ
tag_set_file_set = 3

unfoldable pub encode_record : Bytes → Bytes
encode_record payload = put_uint32 (length payload + 4) ++ (put_uint32 (crc32 payload) ++ payload)

unfoldable pub new_file_payload : ℕ → Bytes
new_file_payload id = tag_new_file ∷ put_uint64 id

unfoldable pub encode_new_file : ℕ → Bytes
unfolding encode_record new_file_payload
encode_new_file id = encode_record (new_file_payload id)

unfoldable pub put_ids : List ℕ → Bytes
put_ids [] = []
put_ids (id ∷ ids) = put_uint64 id ++ put_ids ids

unfoldable pub set_file_set_payload : List ℕ → Bytes
unfolding put_ids
set_file_set_payload ids = tag_set_file_set ∷ (put_uint32 (length ids) ++ put_ids ids)

unfoldable pub encode_set_file_set : List ℕ → Bytes
unfolding encode_record set_file_set_payload
encode_set_file_set ids = encode_record (set_file_set_payload ids)

-- `4 + recordLen` is a sum of `uint32`.
unfoldable pub decode_record : Bytes → Result ManifestError Bytes
decode_record data' =
    let record_len = uint32 data' in
    let total = (4 + record_len) % 2 ^ 32 in
    let payload = drop 8 (take total data') in
    let checked = if crc32 payload == uint32 (drop 4 data') then ok payload else err unexpected in
    if ltb (length data') 8
    then err unexpected
    else if ltb record_len 4
    then err unexpected
    else if ltb (length data') total
    then err unexpected
    else if ltb total 8
    then err panics
    else checked

unfoldable pub is_live : ℕ → List ℕ → Bool
is_live id [] = false
is_live id (j ∷ js) = id == j || is_live id js

-- `liveSet[id] = struct{}{}` and `delete(liveSet, id)`.
unfoldable pub insert_id : ℕ → List ℕ → List ℕ
unfolding is_live
insert_id id live = if is_live id live then live else live ++ id ∷ []

unfoldable pub delete_id : ℕ → List ℕ → List ℕ
delete_id id [] = []
delete_id id (j ∷ js) = if id == j then delete_id id js else j ∷ delete_id id js

-- The loop over `count` ids.
unfoldable pub read_ids : ℕ → Bytes → List ℕ → List ℕ
unfolding insert_id
read_ids zero bs next = next
read_ids (suc count) bs next = read_ids count (drop 8 bs) (insert_id (uint64 bs) next)

unfoldable pub apply_edit : List ℕ → Bytes → Result ManifestError (List ℕ)
unfolding insert_id delete_id read_ids
apply_edit live [] = err unexpected
apply_edit live (tag ∷ rest) =
    if tag == tag_new_file
    then (if ltb (suc (length rest)) 9 then err unexpected else ok (insert_id (uint64 rest) live))
    else if tag == tag_delete_file
    then (if ltb (suc (length rest)) 9 then err unexpected else ok (delete_id (uint64 rest) live))
    else if tag == tag_set_file_set
    then (if ltb (suc (length rest)) 5
        then err unexpected
        else (let count = uint32 rest in
            if ltb (suc (length rest)) (5 + count * 8)
            then err unexpected
            else ok (read_ids count (drop 4 rest) [])))
    else err unexpected

-- The `Log`: the file's content, the live set and the number of records.
pub record Log : Type 0 where
  pub file : Bytes
  pub live_set : List ℕ
  pub record_count : ℕ

-- The outcome of `replay`: `truncateTo` cuts the file where the last good record ends.
pub replayed : Bytes → ℕ → List ℕ → ℕ → Option (Result ManifestError Log)
replayed file valid_end live count =
    some (ok (record { file = take valid_end file; live_set = live; record_count = count }))

-- The loop of `replay`. One turn more than the file has bytes is enough; `none` is the fuel running
-- out. A fault of the disk is not modelled.
pub replay_loop : ℕ → Bytes → ℕ → List ℕ → ℕ → Option (Result ManifestError Log)
unfolding replayed
replay_loop zero file valid_end live count = none
replay_loop (suc fuel) file valid_end live count = elim (read_full 4 (drop valid_end file)) [
  | err e ↦ replayed file valid_end live count
  | ok hr ↦
      let (header, behind) = hr in
      if ltb (uint32 header) 4
      then replayed file valid_end live count
      else elim (read_full (uint32 header) behind) [
        | err e ↦ replayed file valid_end live count
        | ok br ↦
            let (rest, behind') = br in
            elim (decode_record (header ++ rest)) [
              | err unexpected ↦ replayed file valid_end live count
              | err panics ↦ some (err panics)
              | ok payload ↦ elim (apply_edit live payload) [
                | err e ↦ some (err e)
                | ok live' ↦
                    replay_loop fuel file (valid_end + length (header ++ rest)) live' (count + 1)
              ]
            ]
      ]
]

unfoldable pub replay : Bytes → Option (Result ManifestError Log)
unfolding replay_loop
replay file = replay_loop (length file + 1) file 0 [] 0

-- What the file system answers to an append: done, or an error after some bytes; or the error of the
-- sync after all of them.
pub data AppendAnswer : Type 0 where
  synced : AppendAnswer
  write_failed : ℕ → ℕ → AppendAnswer
  sync_failed : ℕ → AppendAnswer

-- `append`, with the live set that `apply` makes.
pub append : Log → Bytes → List ℕ → AppendAnswer → Log × Option ℕ
append l rec live synced =
    (record { file = l.file ++ rec; live_set = live; record_count = l.record_count + 1 }, none)
append l rec live (write_failed n e) = (record l { file = l.file ++ take n rec }, some e)
append l rec live (sync_failed e) = (record l { file = l.file ++ rec }, some e)

-- `sort.Slice` by `<`.
unfoldable pub insert_sorted : ℕ → List ℕ → List ℕ
insert_sorted id [] = id ∷ []
insert_sorted id (j ∷ js) = if leb id j then id ∷ j ∷ js else j ∷ insert_sorted id js

unfoldable pub sort : List ℕ → List ℕ
unfolding insert_sorted
sort [] = []
sort (id ∷ ids) = insert_sorted id (sort ids)

unfoldable pub insert_all : List ℕ → List ℕ → List ℕ
unfolding insert_id
insert_all [] live = live
insert_all (id ∷ ids) live = insert_all ids (insert_id id live)

unfoldable pub append_new_file : Log → ℕ → AppendAnswer → Log × Option ℕ
unfolding append encode_new_file
append_new_file l id a = append l (encode_new_file id) (insert_id id l.live_set) a

unfoldable pub append_set_file_set : Log → List ℕ → AppendAnswer → Log × Option ℕ
unfolding append encode_set_file_set sort insert_all
append_set_file_set l ids a = append l (encode_set_file_set (sort ids)) (insert_all (sort ids) []) a

-- `LiveIDs`
pub live_ids : Log → List ℕ
unfolding sort
live_ids l = sort l.live_set

unfoldable pub bootstrap_if_empty : Log → List ℕ → AppendAnswer → Log × Option ℕ
unfolding append_set_file_set
bootstrap_if_empty l ids a =
    if length l.live_set == 0
    then (if length ids == 0 then (l, none) else append_set_file_set l ids a)
    else (l, none)

abbrev pub compact_record_threshold : ℕ
compact_record_threshold = 64

abbrev pub compact_size_threshold : ℕ
compact_size_threshold = 64 * 1024

-- `compactionNeededLocked`, where the file's size can be read.
pub compaction_needed : Log → Bool
compaction_needed l =
    leb compact_record_threshold l.record_count || leb compact_size_threshold (length l.file)

-- `rotateSnapshotLocked`: the new file is complete before `CURRENT` names it, and an error before that
-- leaves the log as it was.
pub rotate_snapshot : Log → Option ℕ → Log × Option ℕ
unfolding live_ids encode_set_file_set
rotate_snapshot l (some e) = (l, some e)
rotate_snapshot l none =
    (record l { file = encode_set_file_set (live_ids l); record_count = 1 }, none)

unfoldable pub maybe_compact : Log → Option ℕ → Log × Option ℕ
unfolding compaction_needed rotate_snapshot
maybe_compact l fault = if compaction_needed l then rotate_snapshot l fault else (l, none)
