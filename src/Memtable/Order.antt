-- ===== src/Memtable/Order.antt =====
-- Puts and deletes as one change to the sorted nodes.
use pebble_db.Prelude.{
  ℕ, ◌<◌, ◌≡◌, refl, sym, ap, subst, ◌∙◌, List, [], ◌∷◌, ◌++◌, arith, All, All-append_right,
  if◌then◌else◌, true, false, Bool-cases, inl, inr, none,
}
use pebble_db.Bytes.{Bytes, equal, copy_slice}
use pebble_db.Bytes.Order.{equal-compare, eq_of_is_eq}
use pebble_db.Iterator.{Entry}
use pebble_db.Memtable.{Node, SkipList, descend, before, splice, put_at, put, delete_at, delete}
use pebble_db.Memtable.Search.{
  drop_less, take_less, Sorted, HasTowers, descend-eq-drop_less, take_less-append-drop_less,
  before-drop_less,
}

-- A tombstone has no value.
abbrev pub IsBare : Node → Type 0
IsBare n = n.tombstone ≡ true → n.value ≡ none

pub record IsOrdered (sl : SkipList) : Type 0 where
  pub sorted : Sorted sl.nodes
  pub towers : HasTowers sl.nodes
  pub bare : All IsBare sl.nodes
  pub tall : 0 < sl.height

-- The nodes without the one that has the key, if it comes first.
unfoldable pub skip_equal : Bytes → List Node → List Node
skip_equal key [] = []
skip_equal key (x ∷ r) = if equal x.key key then r else x ∷ r

-- The nodes with one node for `key`, in its place.
abbrev pub Upserted : List Node → Entry → List Node → Type 0
Upserted nodes e nodes' =
    (n : Node) × (nodes' ≡ take_less e.key nodes ++ n ∷ skip_equal e.key (drop_less e.key nodes))
    × (n.entry ≡ e)
    × (0 < n.tower)

pub eq_of_equal : (a b : Bytes) → equal a b ≡ true → a ≡ b
eq_of_equal a b h = eq_of_is_eq a b (sym (equal-compare a b) ∙ h)

module _ (sl : SkipList) (key : Bytes) (drawn : ℕ) (o : IsOrdered sl) (up : 0 < drawn) where
  abbrev place : List Node
  place = drop_less key sl.nodes

  finds : descend sl.height key sl.nodes ≡ place
  finds = descend-eq-drop_less sl.height key sl.nodes o.tall o.towers o.sorted

  cut : (l : List Node) → place ≡ l → before sl.nodes l ≡ take_less key sl.nodes
  cut l at =
      subst (λ l. before sl.nodes l ≡ take_less key sl.nodes) at (before-drop_less key sl.nodes)

  in_place : (P : Node → Type 0) → All P sl.nodes → All P place
  in_place P all =
      All-append_right P (take_less key sl.nodes) place
        (subst (All P) (sym (take_less-append-drop_less key sl.nodes)) all)

  splice-Upserted :
      (e : Entry) (l : List Node)
      → place ≡ l
      → e.key ≡ key
      → skip_equal key l ≡ l
      → Upserted sl.nodes e (splice sl l e drawn).nodes
  unfolding splice
  splice-Upserted e l at ek skip =
      let n : Node = record { entry = e; tower = drawn } in
      (n, simp (ek, at, cut l at, skip), refl, up)

  put_at-Upserted :
      (value : Bytes) (l : List Node)
      → place ≡ l
      → Upserted sl.nodes
          (record { key = key; value = copy_slice value; tombstone = false })
          (put_at sl key value drawn l).nodes
  unfolding put_at
  put_at-Upserted value [] at = splice-Upserted _ [] at refl (unfold skip_equal in refl)
  put_at-Upserted value (x ∷ r) at = elim (Bool-cases (equal x.key key)) [
    | inl here ↦
        let t = subst HasTowers at (in_place (λ (n : Node). 0 < n.tower) o.towers) in
        rw here (
          record x { entry = record { key = key; value = copy_slice value; tombstone = false } },
          simp (cut (x ∷ r) at, at) (unfold skip_equal in rw here),
          refl,
          t.0,
        )
    | inr gone ↦ rw gone (splice-Upserted _ (x ∷ r) at refl (unfold skip_equal in rw gone))
  ]

  skip_equal-here : (x : Node) (r : List Node) → equal x.key key ≡ true → skip_equal key (x ∷ r) ≡ r
  unfolding skip_equal
  skip_equal-here x r here = rw here

  delete_at-dead :
      (x : Node) (r : List Node)
      → equal x.key key ≡ true
      → x.tombstone ≡ true
      → delete_at sl key drawn (x ∷ r) ≡ sl
  unfolding delete_at
  delete_at-dead x r here dead = ground (arith, here, dead)

  delete_at-Upserted :
      (l : List Node)
      → place ≡ l
      → Upserted sl.nodes
          (record { key = key; value = none; tombstone = true })
          (delete_at sl key drawn l).nodes
  unfolding delete_at
  delete_at-Upserted [] at = splice-Upserted _ [] at refl (unfold skip_equal in refl)
  delete_at-Upserted (x ∷ r) at = elim (Bool-cases (equal x.key key)) [
    | inl here ↦
        let t = subst HasTowers at (in_place (λ (n : Node). 0 < n.tower) o.towers) in
        let bare = subst (All IsBare) at (in_place IsBare o.bare) in
        let same = eq_of_equal x.key key here in
        elim (Bool-cases x.tombstone) [
          | inl dead ↦ (
            x,
            ap (λ (t : SkipList). t.nodes) (delete_at-dead x r here dead)
                ∙ sym (take_less-append-drop_less key sl.nodes)
                ∙ ap (λ (b : List Node). take_less key sl.nodes ++ b)
                    (at ∙ ap (◌∷◌ x) (sym (ap (skip_equal key) at ∙ skip_equal-here x r here))),
            cc (same, dead, bare.0 dead),
            t.0,
          )
          | inr live ↦
              rw (here, live)
                (
                  record x { entry = record { key = x.key; value = none; tombstone = true } },
                  simp (cut (x ∷ r) at, at) (unfold skip_equal in rw here),
                  rw same,
                  t.0,
                )
        ]
    | inr gone ↦ rw gone (splice-Upserted _ (x ∷ r) at refl (unfold skip_equal in rw gone))
  ]

  pub put-Upserted :
      (value : Bytes)
      → Upserted sl.nodes
          (record { key = key; value = copy_slice value; tombstone = false })
          (put sl key value drawn).nodes
  unfolding put
  put-Upserted value = rw finds (put_at-Upserted value place refl)

  pub delete-Upserted :
      Upserted sl.nodes
        (record { key = key; value = none; tombstone = true })
        (delete sl key drawn).nodes
  unfolding delete
  delete-Upserted = rw finds (delete_at-Upserted place refl)
