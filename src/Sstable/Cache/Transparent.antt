-- ===== src/Sstable/Cache/Transparent.antt =====
-- A cache holds nothing but what was put into it.
use pebble_db.Prelude.{
  ℕ, zero, suc, ◌+◌, ◌-◌, ◌≡◌, ◌⊎◌, inl, inr, sym, ◌∙◌, ltb, Bool-cases, Option-cases, some-inj,
  subst, Option, none, some, true, length, arith, if◌then◌else◌,
}
use pebble_db.Bytes.{Bytes}
use pebble_db.Sstable.Cache.{
  BlockCacheKey, same_key, Lru, BlockCache, get, evict, replaced_size, add,
}

-- What a state of the LRU cache holds, and that its operations lose entries at most.
pub record Honest {L : Type 0} (lru : Lru L) (held : L → BlockCacheKey → Option Bytes)
    : Type 0 where
  pub looks : (l : L) (key : BlockCacheKey) → (lru.lookup l key).0 ≡ held l key
  pub moves : (l : L) (key k : BlockCacheKey) → held (lru.lookup l key).1 k ≡ held l k
  pub inserts :
      (l : L) (key : BlockCacheKey) (block : Bytes) (k : BlockCacheKey)
      → (held (lru.insert l key block) k ≡ none)
        ⊎ (held (lru.insert l key block) k ≡ (if same_key k key then some block else held l k))
  pub drops :
      (l : L) (k : BlockCacheKey)
      → (held (lru.remove_oldest l).1 k ≡ none) ⊎ (held (lru.remove_oldest l).1 k ≡ held l k)

-- Every block held is the one that `truth` gives for its key.
abbrev pub IsSound :
    {L : Type 0}
    → (L → BlockCacheKey → Option Bytes)
    → (BlockCacheKey → Bytes → Type 0)
    → L
    → Type 0
IsSound held truth l = (k : BlockCacheKey) (block : Bytes) → held l k ≡ some block → truth k block

module _ {L : Type 0} (lru : Lru L) (held : L → BlockCacheKey → Option Bytes)
    (honest : Honest lru held) (truth : BlockCacheKey → Bytes → Type 0) where
  kept :
      {a : Option Bytes} (b : Option Bytes) (block : Bytes)
      → (a ≡ none) ⊎ (a ≡ b)
      → a ≡ some block
      → b ≡ some block
  kept b block (inl gone) h = cc
  kept b block (inr same) h = sym same ∙ h

  evict-IsSound :
      (fuel : ℕ) (c : BlockCache L)
      → IsSound held truth c.inner
      → IsSound held truth (evict lru fuel c).inner
  unfolding evict
  evict-IsSound zero c sound = sound
  evict-IsSound (suc fuel) c sound =
      let inner = (lru.remove_oldest c.inner).1 in
      let left : IsSound held truth inner =
        λ k block h. sound k block (kept (held c.inner k) block (honest.drops c.inner k) h) in
      elim (Bool-cases (ltb c.max c.bytes)) [
        | inr small ↦ rw small sound
        | inl large ↦ elim (Option-cases (lru.remove_oldest c.inner).0) [
          | inl empty ↦ rw (large, empty) left
          | inr (v, e) ↦
              rw (large, e)
                (evict-IsSound fuel (record c { inner = inner; bytes = c.bytes - length v }) left)
        ]
      ]

  pub get-IsSound :
      (c : BlockCache L) (key : BlockCacheKey)
      → IsSound held truth c.inner
      → IsSound held truth (get lru c key).1.inner
  unfolding get
  get-IsSound c key sound = λ k block h. sound k block (sym (honest.moves c.inner key k) ∙ h)

  pub get-hit :
      (c : BlockCache L) (key : BlockCacheKey) (block : Bytes)
      → IsSound held truth c.inner
      → (get lru c key).0 ≡ some block
      → truth key block
  unfolding get
  get-hit c key block sound h = sound key block (sym (honest.looks c.inner key) ∙ h)

  eq_of_same_key : (a b : BlockCacheKey) → same_key a b ≡ true → a ≡ b
  eq_of_same_key a b h = ground (arith, h)

  inserted :
      (l : L) (key : BlockCacheKey) (block : Bytes)
      → IsSound held truth l
      → truth key block
      → IsSound held truth (lru.insert l key block)
  inserted l key block sound true_block k found h =
      let e =
        kept (if same_key k key then some block else held l k) found (honest.inserts l key block k)
          h in
      elim (Bool-cases (same_key k key)) [
        | inl same ↦
            subst (λ x. truth x found) (sym (eq_of_same_key k key same))
              (subst (truth key) (some-inj (rw same at e)) true_block)
        | inr other ↦ sound k found (rw other at e)
      ]

  pub add-IsSound :
      (c : BlockCache L) (key : BlockCacheKey) (block : Bytes)
      → IsSound held truth c.inner
      → truth key block
      → IsSound held truth (add lru c key block).inner
  unfolding add
  add-IsSound c key block sound true_block =
      let (existing, inner) = lru.lookup c.inner key in
      let next = lru.insert inner key block in
      let looked : IsSound held truth inner =
        λ k b h. sound k b (sym (honest.moves c.inner key k) ∙ h) in
      evict-IsSound (lru.count next + 1)
        (record c { inner = next; bytes = c.bytes - replaced_size existing + length block })
        (inserted inner key block looked true_block)
