-- ===== src/Manifest/Records.antt =====
-- Records and edits of the manifest: what is encoded is decoded and applied as it was meant.
use pebble_db.Prelude.{
  ℕ, suc, ◌+◌, ◌*◌, ◌%◌, ◌^◌, ◌<◌, ◌≤◌, ◌≡◌, refl, sym, ap, ◌∙◌, ==-refl, List, [], ◌∷◌, ◌++◌,
  length, drop, All, arith, length-append, drop-append, take_all, append-nil,
}
use native.Mathlib.Nat.{mod-eq_of_lt}
use pebble_db.Bytes.{Bytes}
use pebble_db.Result.{ok}
use pebble_db.Codec.{put_uint32, uint32, put_uint64, uint64, crc32}
use pebble_db.Codec.Laws.{
  length-put_uint32, uint32-put, length-put_uint64, uint64-put, uint64-put_self, crc32-lt,
}
use pebble_db.Manifest.{
  encode_record, new_file_payload, put_ids, set_file_set_payload, decode_record, insert_id,
  insert_all, read_ids, apply_edit,
}

-- A record that a length of 32 bits can describe.
abbrev pub Fits : Bytes → Type 0
Fits payload = length payload + 8 < 2 ^ 32

pub length-encode_record : (p : Bytes) → length (encode_record p) ≡ length p + 8
unfolding encode_record
length-encode_record p = omega (
  arith,
  length-append (put_uint32 (length p + 4)) (put_uint32 (crc32 p) ++ p),
  length-append (put_uint32 (crc32 p)) p,
  length-put_uint32 (length p + 4),
  length-put_uint32 (crc32 p),
)

pub uint32-encode_record :
    (p rest : Bytes) → Fits p → uint32 (encode_record p ++ rest) ≡ length p + 4
unfolding encode_record put_uint32 uint32
uint32-encode_record p rest h = omega (arith, h)

drop-4 : (p : Bytes) → drop 4 (encode_record p) ≡ put_uint32 (crc32 p) ++ p
unfolding encode_record put_uint32
drop-4 p = refl

drop-8 : (p : Bytes) → drop 8 (encode_record p) ≡ p
unfolding encode_record put_uint32
drop-8 p = refl

-- A record that is encoded is decoded to its payload.
pub decode_record-encode_record : (p : Bytes) → Fits p → decode_record (encode_record p) ≡ ok p
unfolding decode_record
decode_record-encode_record p h =
    let size = length-encode_record p in
    let len : uint32 (encode_record p) ≡ length p + 4 =
      ap uint32 (sym (append-nil (encode_record p))) ∙ uint32-encode_record p [] h in
    let total : (4 + (length p + 4)) % 2 ^ 32 ≡ length p + 8 = omega (arith, h) in
    let sum : uint32 (put_uint32 (crc32 p) ++ p) ≡ crc32 p =
      uint32-put (crc32 p) p ∙ mod-eq_of_lt (crc32-lt p) in
    rw
      (
        len,
        total,
        take_all (length p + 8) (encode_record p) (omega (arith, size)),
        drop-8 p,
        drop-4 p,
        sum,
        size,
        ==-refl (crc32 p),
      )
      (ground arith)

-- The edits that the log writes, and what each makes of the live set.
pub data Edit : Type 0 where
  new_file : ℕ → Edit
  set_file_set : List ℕ → Edit

abbrev pub payload_of : Edit → Bytes
payload_of (new_file id) = new_file_payload id
payload_of (set_file_set ids) = set_file_set_payload ids

abbrev pub edited : List ℕ → Edit → List ℕ
edited live (new_file id) = insert_id id live
edited live (set_file_set ids) = insert_all ids []

-- Ids of 64 bits, and at most 2 ^ 28 of them, so that a record can hold them.
abbrev pub IsEdit : Edit → Type 0
IsEdit (new_file id) = id < 2 ^ 64
IsEdit (set_file_set ids) = All (λ (id : ℕ). id < 2 ^ 64) ids × (length ids ≤ 2 ^ 28)

length-put_ids : (ids : List ℕ) → length (put_ids ids) ≡ length ids * 8
unfolding put_ids
length-put_ids [] = omega arith
length-put_ids (id ∷ ids) =
    omega
      (arith, length-append (put_uint64 id) (put_ids ids), length-put_uint64 id, length-put_ids ids)

read_ids-put_ids :
    (ids live : List ℕ)
    → All (λ (id : ℕ). id < 2 ^ 64) ids
    → read_ids (length ids) (put_ids ids) live ≡ insert_all ids live
unfolding read_ids put_ids insert_all
read_ids-put_ids [] live h = refl
read_ids-put_ids (id ∷ ids) live h =
    let tail = drop-append 8 (put_uint64 id) (put_ids ids) (length-put_uint64 id) in
    let head = uint64-put id (put_ids ids) h.0 in
    let step : read_ids (suc (length ids)) (put_ids (id ∷ ids)) live
        ≡ read_ids (length ids) (drop 8 (put_ids (id ∷ ids)))
            (insert_id (uint64 (put_ids (id ∷ ids))) live) =
      refl in
    step
    ∙ ap (λ b. read_ids (length ids) b (insert_id (uint64 (put_ids (id ∷ ids))) live)) tail
    ∙ ap (λ i. read_ids (length ids) (put_ids ids) (insert_id i live)) head
    ∙ read_ids-put_ids ids (insert_id id live) h.1

length-set_file_set_payload :
    (ids : List ℕ) → length (set_file_set_payload ids) ≡ 5 + length ids * 8
unfolding set_file_set_payload
length-set_file_set_payload ids = omega (
  arith,
  length-append (put_uint32 (length ids)) (put_ids ids),
  length-put_uint32 (length ids),
  length-put_ids ids,
)

length-new_file_payload : (id : ℕ) → length (new_file_payload id) ≡ 9
unfolding new_file_payload
length-new_file_payload id = omega (arith, length-put_uint64 id)

pub payload_of-Fits : (e : Edit) → IsEdit e → Fits (payload_of e)
payload_of-Fits (new_file id) h = omega (arith, length-new_file_payload id)
payload_of-Fits (set_file_set ids) h = omega (arith, length-set_file_set_payload ids, h.1)

-- Applying the payload of an edit to a live set does what the edit means: a new file is added, and
-- a set of files replaces all that was there.
pub apply_edit-payload_of :
    (e : Edit) (live : List ℕ) → IsEdit e → apply_edit live (payload_of e) ≡ ok (edited live e)
unfolding apply_edit new_file_payload set_file_set_payload
apply_edit-payload_of (new_file id) live h =
    rw (length-put_uint64 id, uint64-put_self id h) (ground arith)
apply_edit-payload_of (set_file_set ids) live h =
    let size : length (put_uint32 (length ids) ++ put_ids ids) ≡ 4 + length ids * 8 = omega (
      arith,
      length-append (put_uint32 (length ids)) (put_ids ids),
      length-put_uint32 (length ids),
      length-put_ids ids,
    ) in
    let count : uint32 (put_uint32 (length ids) ++ put_ids ids) ≡ length ids =
      uint32-put (length ids) (put_ids ids) ∙ mod-eq_of_lt (omega (arith, h.1)) in
    rw
      (
        size,
        count,
        drop-append 4 (put_uint32 (length ids)) (put_ids ids) (length-put_uint32 (length ids)),
        read_ids-put_ids ids [] h.0,
      )
      (ground arith)
