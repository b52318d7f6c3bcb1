-- ===== src/Index/IndexMap/Walks.antt =====
-- The loops along a chain visit the entries with the ID, the newest first.
use restic.Prelude.{
  ℕ, zero, suc, ◌≤◌, ◌<◌, ◌≡◌, ◌∙◌, refl, sym, ap, true, false, not, Option, none, some, List, [],
  ◌∷◌, ◌==◌, if◌then◌else◌, arith, map, ok, ◌>>=◌, bytes_eq, bytes_eq→eq, Bool-cases, inl, inr,
  ==_iff, suc-==-zero,
}
use restic.Blob.{BlobId}
use restic.Index.HashedArrayTree.{HashedArrayTree, ref}
use restic.Index.HashedArrayTree.Growth.{ref-some}
use restic.Index.IndexMap.{IndexEntry, walk, find}
use restic.Index.IndexMap.Chains.{
  Item, item, items_below, newest, with_id, newest-snoc, last_with, IsLinked, resolve-ok,
  item_at-some,
}

abbrev pub first_of : List Item → Option Item
first_of [] = none
first_of (x ∷ xs) = some x

abbrev pub item_of : Option IndexEntry → Option Item
item_of none = none
item_of (some e) = some (item e)

module _ (bl : HashedArrayTree IndexEntry) (bucket_of : BlobId → ℕ) (linked : IsLinked bl bucket_of)
    (id : BlobId) where
  abbrev pub chain_at : ℕ → ℕ
  chain_at n = last_with bl (λ j. bucket_of j == bucket_of id) n

  pub record Walked (fuel n : ℕ) : Type 0 where
    pub entries : List IndexEntry
    pub made : walk fuel bl id (chain_at n) ≡ ok entries
    pub items : map item entries ≡ with_id id (items_below bl n)

  walk-end : (fuel : ℕ) → walk fuel bl id 0 ≡ ok []
  unfolding walk
  walk-end zero = refl
  walk-end (suc fuel) = refl

  -- The next position of a chain through entry `e`.
  pub next-chain :
      (i : ℕ) (e : IndexEntry)
      → 1 ≤ i
      → i < bl.size
      → ref bl i ≡ some e
      → (bucket_of e.id == bucket_of id) ≡ true
      → e.next ≡ chain_at i
  next-chain i e lo hi found same =
      linked.nexts i e lo hi found
      ∙ ap (λ (b : ℕ). last_with bl (λ j. bucket_of j == b) i) ((==_iff _ _).0 same)

  -- An entry of another bucket has another ID.
  pub other_bucket :
      (e : IndexEntry) → (bucket_of e.id == bucket_of id) ≡ false → bytes_eq e.id id ≡ false
  other_bucket e h = elim (Bool-cases (bytes_eq e.id id)) [
    | inl same ↦ absurd (ground (arith, ap bucket_of (bytes_eq→eq e.id id same)))
    | inr other ↦ other
  ]

  pub chain_at-step :
      (n : ℕ) (e : IndexEntry)
      → ref bl (suc n) ≡ some e
      → chain_at (suc (suc n))
        ≡ (if bucket_of e.id == bucket_of id then suc n else chain_at (suc n))
  unfolding last_with
  chain_at-step n e found = rw (item_at-some bl (suc n) e found) refl

  items_below-step :
      (n : ℕ) (e : IndexEntry)
      → ref bl (suc n) ≡ some e
      → with_id id (items_below bl (suc (suc n))) ≡ (
          if bytes_eq e.id id
          then item e ∷ with_id id (items_below bl (suc n))
          else with_id id (items_below bl (suc n)))
  unfolding items_below
  items_below-step n e found =
      rw (item_at-some bl (suc n) e found) (newest-snoc id (items_below bl (suc n)) (item e) [])

  walk-step :
      (f n : ℕ) (e : IndexEntry)
      → ref bl (suc n) ≡ some e
      → walk (suc f) bl id (suc n) ≡ (
          walk f bl id e.next >>= λ rest. if not (bytes_eq e.id id) then ok rest else ok (e ∷ rest))
  unfolding walk
  walk-step f n e found = rw (suc-==-zero n, resolve-ok bl (suc n) e found) refl

  pub chain_at-low : (n : ℕ) → n ≤ 1 → chain_at n ≡ 0
  unfolding last_with
  chain_at-low zero h = refl
  chain_at-low (suc zero) h = refl
  chain_at-low (suc (suc n)) h = absurd (omega arith)

  items_below-low : (n : ℕ) → n ≤ 1 → items_below bl n ≡ []
  unfolding items_below
  items_below-low zero h = refl
  items_below-low (suc zero) h = refl
  items_below-low (suc (suc n)) h = absurd (omega arith)

  with_id-nil : with_id id [] ≡ []
  unfolding newest
  with_id-nil = refl

  walk-low : (n fuel : ℕ) → n ≤ 1 → Walked fuel n
  walk-low n fuel h = record {
    entries = [];
    made = rw (chain_at-low n h) (walk-end fuel);
    items = rw (items_below-low n h) (sym with_id-nil);
  }

  -- The entry at the end of the range is of this bucket.
  walk-here :
      (n fuel : ℕ) (e : IndexEntry)
      → suc (suc n) ≤ bl.size
      → ref bl (suc n) ≡ some e
      → (bucket_of e.id == bucket_of id) ≡ true
      → Walked fuel (suc n)
      → Walked (suc fuel) (suc (suc n))
  walk-here n fuel e k found same r = record {
    entries = if bytes_eq e.id id then e ∷ r.entries else r.entries;
    made =
        rw
          (
            chain_at-step n e found,
            same,
            walk-step fuel n e found,
            next-chain (suc n) e (omega arith) k found same,
            r.made,
          )
          (ground arith);
    items = rw (items_below-step n e found, ← r.items) (ground arith);
  }

  walk-other :
      (n fuel : ℕ) (e : IndexEntry)
      → ref bl (suc n) ≡ some e
      → (bucket_of e.id == bucket_of id) ≡ false
      → Walked fuel (suc n)
      → Walked fuel (suc (suc n))
  walk-other n fuel e found other r = record {
    entries = r.entries;
    made = rw (chain_at-step n e found, other) r.made;
    items = rw (items_below-step n e found, other_bucket e other) r.items;
  }

  pub walk-Walked : (n fuel : ℕ) → n ≤ suc fuel → n ≤ bl.size → Walked fuel n
  walk-Walked zero fuel h k = walk-low 0 fuel (omega arith)
  walk-Walked (suc zero) fuel h k = walk-low 1 fuel (omega arith)
  walk-Walked (suc (suc n)) zero h k = absurd (omega arith)
  walk-Walked (suc (suc n)) (suc fuel) h k =
      let (e, found) = ref-some bl (suc n) linked.valid k in
      elim (Bool-cases (bucket_of e.id == bucket_of id)) [
        | inl same ↦
            walk-here n fuel e k found same (walk-Walked (suc n) fuel (omega arith) (omega arith))
        | inr other ↦
            walk-other n (suc fuel) e found other
              (walk-Walked (suc n) (suc fuel) (omega arith) (omega arith))
      ]

  pub record Found (fuel n : ℕ) : Type 0 where
    pub entry : Option IndexEntry
    pub made : find fuel bl id (chain_at n) ≡ ok entry
    pub item : item_of entry ≡ first_of (with_id id (items_below bl n))

  find-end : (fuel : ℕ) → find fuel bl id 0 ≡ ok none
  unfolding find
  find-end zero = refl
  find-end (suc fuel) = refl

  find-step :
      (f n : ℕ) (e : IndexEntry)
      → ref bl (suc n) ≡ some e
      → find (suc f) bl id (suc n) ≡ (if bytes_eq e.id id then ok (some e) else find f bl id e.next)
  unfolding find
  find-step f n e found = rw (suc-==-zero n, resolve-ok bl (suc n) e found) (ground arith)

  find-low : (n fuel : ℕ) → n ≤ 1 → Found fuel n
  find-low n fuel h = record {
    entry = none;
    made = rw (chain_at-low n h) (find-end fuel);
    item = rw (items_below-low n h, with_id-nil) refl;
  }

  find-here :
      (n fuel : ℕ) (e : IndexEntry)
      → suc (suc n) ≤ bl.size
      → ref bl (suc n) ≡ some e
      → (bucket_of e.id == bucket_of id) ≡ true
      → Found fuel (suc n)
      → Found (suc fuel) (suc (suc n))
  find-here n fuel e k found same r = record {
    entry = if bytes_eq e.id id then some e else r.entry;
    made =
        rw
          (
            chain_at-step n e found,
            same,
            find-step fuel n e found,
            next-chain (suc n) e (omega arith) k found same,
            r.made,
          )
          (ground arith);
    item = rw (items_below-step n e found) (let i = r.item in ground arith);
  }

  find-other :
      (n fuel : ℕ) (e : IndexEntry)
      → ref bl (suc n) ≡ some e
      → (bucket_of e.id == bucket_of id) ≡ false
      → Found fuel (suc n)
      → Found fuel (suc (suc n))
  find-other n fuel e found other r = record {
    entry = r.entry;
    made = rw (chain_at-step n e found, other) r.made;
    item = rw (items_below-step n e found, other_bucket e other) r.item;
  }

  pub find-Found : (n fuel : ℕ) → n ≤ suc fuel → n ≤ bl.size → Found fuel n
  find-Found zero fuel h k = find-low 0 fuel (omega arith)
  find-Found (suc zero) fuel h k = find-low 1 fuel (omega arith)
  find-Found (suc (suc n)) zero h k = absurd (omega arith)
  find-Found (suc (suc n)) (suc fuel) h k =
      let (e, found) = ref-some bl (suc n) linked.valid k in
      elim (Bool-cases (bucket_of e.id == bucket_of id)) [
        | inl same ↦
            find-here n fuel e k found same (find-Found (suc n) fuel (omega arith) (omega arith))
        | inr other ↦
            find-other n (suc fuel) e found other
              (find-Found (suc n) (suc fuel) (omega arith) (omega arith))
      ]
