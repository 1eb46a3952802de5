-- ===== src/Wal/Log/Truncate.antt =====
-- The truncation from the front, state by state.
use pebble_db.Prelude.{
  ℕ, zero, suc, ◌+◌, ◌-◌, ◌≤◌, ◌<◌, ◌≡◌, refl, sym, ap, ◌∙◌, List, [], ◌∷◌, ◌++◌, length, take,
  drop, arith, drop-drop, take-append-drop, append_assoc, append-nil, All, All-append, ltb, leb,
  ◌==◌, true, Bool-cases, ◌⊎◌, inl, inr, if◌then◌else◌, drop_all,
}
use pebble_db.Bytes.{Bytes}
use pebble_db.Wal.Log.{Disk, chunk_size, copy_tail, last_or, with_tmp, truncate_before}

abbrev chunk : Bytes → ℕ → ℕ
chunk file off = if ltb (length file - off) chunk_size then length file - off else chunk_size

chunk_bounds :
    (file : Bytes) (off : ℕ)
    → ltb off (length file) ≡ true
    → (0 < chunk file off) × (off + chunk file off ≤ length file)
chunk_bounds file off h = ground arith

-- The chunks that are copied add up to the tail of the log.
copy_tail-last :
    (rounds : ℕ) (file : Bytes) (off : ℕ) (tmp : Bytes)
    → length file - off ≤ rounds
    → last_or tmp (copy_tail rounds file off tmp) ≡ tmp ++ drop off file
unfolding copy_tail last_or
copy_tail-last zero file off tmp h =
    sym (ap (λ b. tmp ++ b) (drop_all off file (omega arith)) ∙ append-nil tmp)
copy_tail-last (suc rounds) file off tmp h = elim (Bool-cases (ltb off (length file))) [
  | inl more ↦
      let n = chunk file off in
      let bounds = chunk_bounds file off more in
      rw (more) (
        copy_tail-last rounds file (off + n) (tmp ++ take n (drop off file)) (omega (arith, bounds))
        ∙ append_assoc tmp (take n (drop off file)) (drop (off + n) file)
        ∙ ap (λ b. tmp ++ (take n (drop off file) ++ b)) (sym (drop-drop off n file))
        ∙ ap (λ b. tmp ++ b) (take-append-drop n (drop off file)))
  | inr done ↦
      rw done (sym (ap (λ b. tmp ++ b) (drop_all off file (ground arith)) ∙ append-nil tmp))
]

-- `wal.log` holds the old log or the cut one.
abbrev pub IsOldOrCut : Bytes → ℕ → Disk → Type 0
IsOldOrCut file at d = (d.wal ≡ file) ⊎ (d.wal ≡ drop at file)

with_tmp-old :
    (file : Bytes) (at : ℕ) (ts : List Bytes) → All (IsOldOrCut file at) (with_tmp file ts)
unfolding with_tmp
with_tmp-old file at [] = tt
with_tmp-old file at (t ∷ ts) = (inl refl, with_tmp-old file at ts)

-- Wherever a crash stops the truncation, `wal.log` is the whole old log or the old log without its
-- first `at` bytes, and never anything in between.
pub truncate_before-atomic :
    (file : Bytes) (at : ℕ) → All (IsOldOrCut file at) (truncate_before file at)
unfolding truncate_before
truncate_before-atomic file at = elim (Bool-cases (at == 0)) [
  | inl e ↦ rw e (inl refl, tt)
  | inr ne ↦ rw ne (elim (Bool-cases (leb (length file) at)) [
    | inl past ↦ rw past (inl refl, (inr (sym (drop_all at file (ground arith))), tt))
    | inr inside ↦ rw inside (
      inl refl,
      All-append (IsOldOrCut file at) (with_tmp file (copy_tail (length file) file at [])) _
          (with_tmp-old file at (copy_tail (length file) file at []))
          (inr (copy_tail-last (length file) file at [] (omega arith)), tt),
    )
  ])
]
