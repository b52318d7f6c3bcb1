-- ===== src/Index/IndexMap/Lookup.antt =====
-- What foreach, foreachWithID, get and firstIndex return for every map that add has built.
use native.Mathlib.Nat.{one-le-pow}
use restic.Prelude.{
  ℕ, zero, suc, ◌+◌, ◌-◌, ◌≤◌, ◌≡◌, ◌∙◌, refl, sym, ap, false, Option, none, some, List, [], ◌∷◌,
  ◌++◌, append_assoc, append-nil, ◌==◌, if◌then◌else◌, arith, map, length, length-append, ok,
  Bool-cases, inl, inr, bytes_eq,
}
use restic.Blob.{BlobId}
use restic.Index.HashedArrayTree.{HashedArrayTree, ref}
use restic.Index.HashedArrayTree.Invariant.{IsValid}
use restic.Index.HashedArrayTree.Growth.{ref-some}
use restic.Index.IndexMap.{
  IndexEntry, IndexMap, bucket, hash, foreach_from, foreach, foreach_with_id, get, first_index,
}
use restic.Index.IndexMap.Chains.{
  Item, item, listed, items_below, with_id, newest, IsLinked, item_at-some, resolve-ok,
}
use restic.Index.IndexMap.Content.{items_below-step}
use restic.Index.IndexMap.Walks.{chain_at, first_of, item_of, walk-Walked, find-Found}
use restic.Index.IndexMap.FirstIndex.{
  first_position, keep_first, first_position-step, or_else, find_first-or_else,
}
use restic.Index.IndexMap.Grow.{bucket-ok, hash-lt}
use restic.Index.IndexMap.Prepare.{IsBuilt, IsMap, contents}

foreach_from-step :
    (bl : HashedArrayTree IndexEntry) (n i : ℕ) (e : IndexEntry) (rest : List IndexEntry)
    → ref bl i ≡ some e
    → foreach_from bl n (i + 1) ≡ ok rest
    → foreach_from bl (suc n) i ≡ ok (e ∷ rest)
unfolding foreach_from
foreach_from-step bl n i e rest found after = rw (resolve-ok bl i e found, after) refl

foreach_from-items :
    (bl : HashedArrayTree IndexEntry) (n i : ℕ)
    → IsValid bl
    → 1 ≤ i
    → i + n ≤ bl.size
    → (es : List IndexEntry) × (foreach_from bl n i ≡ ok es)
      × (items_below bl i ++ map item es ≡ items_below bl (i + n))
unfolding foreach_from
foreach_from-items bl zero i v lo within =
    let here : i ≡ i + 0 = omega arith in
    ([], refl, append-nil (items_below bl i) ∙ ap (items_below bl) here)
foreach_from-items bl (suc n) i v lo within =
    let (e, found) = ref-some bl i v (omega arith) in
    let (rest, made, items) = foreach_from-items bl n (i + 1) v (omega arith) (omega arith) in
    let sum : i + 1 + n ≡ i + suc n = omega arith in
    let next : i + 1 ≡ suc i = omega arith in
    let here : items_below bl (i + 1) ≡ items_below bl i ++ item e ∷ [] =
      ap (items_below bl) next
      ∙ items_below-step bl i lo
      ∙ ap (λ (o : Option Item). items_below bl i ++ listed o) (item_at-some bl i e found) in
    (
      e ∷ rest,
      foreach_from-step bl n i e rest found made,
      sym (append_assoc (items_below bl i) (item e ∷ []) (map item rest))
          ∙ ap (λ (xs : List Item). xs ++ map item rest) (sym here)
          ∙ items
          ∙ ap (items_below bl) sum,
    )

-- The place of the first item with an ID, counted from `i`.
unfoldable pub position : BlobId → List Item → ℕ → Option ℕ
position id [] i = none
position id (x ∷ xs) i = if bytes_eq x.id id then some i else position id xs (i + 1)

position-snoc :
    (id : BlobId) (xs : List Item) (x : Item) (i : ℕ)
    → position id (xs ++ x ∷ []) i ≡ keep_first id (i + length xs) (position id xs i) (some x)
unfolding position
position-snoc id [] x i = ap (λ (k : ℕ). if bytes_eq x.id id then some k else none) (omega arith)
position-snoc id (y ∷ xs) x i = elim (Bool-cases (bytes_eq y.id id)) [
  | inl here ↦ rw here refl
  | inr other ↦ rw other (
      position-snoc id xs x (i + 1)
      ∙ ap (λ (k : ℕ). keep_first id k (position id xs (i + 1)) (some x)) (omega arith))
]

length-items_below :
    (bl : HashedArrayTree IndexEntry) (n : ℕ)
    → IsValid bl
    → suc n ≤ bl.size
    → length (items_below bl (suc n)) ≡ n
unfolding items_below
length-items_below bl zero v h = refl
length-items_below bl (suc n) v h =
    let (e, found) = ref-some bl (suc n) v h in
    ap (λ (o : Option Item). length (items_below bl (suc n) ++ listed o))
      (item_at-some bl (suc n) e found)
    ∙ length-append (items_below bl (suc n)) (item e ∷ [])
    ∙ ap (λ (k : ℕ). k + 1) (length-items_below bl n v (omega arith))
    ∙ omega arith

first_position-position :
    (bl : HashedArrayTree IndexEntry) (bucket_of : BlobId → ℕ) (linked : IsLinked bl bucket_of)
    (id : BlobId) (n : ℕ)
    → n ≤ bl.size
    → first_position bl id n ≡ position id (items_below bl n) 1
unfolding first_position items_below position
first_position-position bl bucket_of linked id zero h = refl
first_position-position bl bucket_of linked id (suc zero) h = refl
first_position-position bl bucket_of linked id (suc (suc n)) h =
    let (e, found) = ref-some bl (suc n) linked.valid h in
    first_position-step bl bucket_of linked id n e found
    ∙ ap (λ (o : Option ℕ). keep_first id (suc n) o (some (item e)))
        (first_position-position bl bucket_of linked id (suc n) (omega arith))
    ∙ ap (λ (k : ℕ). keep_first id k (position id (items_below bl (suc n)) 1) (some (item e)))
        (omega (arith, length-items_below bl n linked.valid (omega arith)))
    ∙ sym (position-snoc id (items_below bl (suc n)) (item e) 1)
    ∙ ap (λ (o : Option Item). position id (items_below bl (suc n) ++ listed o) 1)
        (sym (item_at-some bl (suc n) e found))

abbrev of_map : IndexMap → BlobId → ℕ
of_map m = hash m.mh (length m.buckets)

built-IsLinked : (m : IndexMap) → IsBuilt m → IsLinked m.block_list (of_map m)
built-IsLinked m b = record { valid = b.chains.valid; nexts = b.chains.nexts }

head-ok :
    (m : IndexMap) (b : IsBuilt m) (id : BlobId)
    → bucket m.buckets (of_map m id)
      ≡ ok (chain_at m.block_list (of_map m) (built-IsLinked m b) id m.block_list.size)
head-ok m b id =
    bucket-ok m.buckets (of_map m id) _
      (b.chains.heads (of_map m id) (hash-lt m.mh (length m.buckets) b.k id b.power))

some_buckets : (m : IndexMap) → IsBuilt m → (length m.buckets == 0) ≡ false
some_buckets m b = let lo = one-le-pow b.k 2 (omega arith) in ground (arith, b.power)

-- On a map that add has built, foreach visits the items in the order in which they were added.
pub foreach-contents :
    (m : IndexMap)
    → IsMap m
    → (es : List IndexEntry) × (foreach m ≡ ok es) × (map item es ≡ contents m)
unfolding foreach IsMap items_below
foreach-contents m (inl e) =
    ([], ap (λ (x : IndexMap). foreach x) e, sym (ap (λ (x : IndexMap). contents x) e))
foreach-contents m (inr (b, lo)) =
    let size : 1 ≤ m.block_list.size = omega (arith, b.count) in
    let (es, made, items) =
      foreach_from-items m.block_list (m.block_list.size - 1) 1 b.chains.valid (omega arith)
        (omega arith) in
    let total : 1 + (m.block_list.size - 1) ≡ m.block_list.size = omega arith in
    (es, made, items ∙ ap (items_below m.block_list) total)

-- On a map that add has built, foreachWithID visits the items with the ID and no other, the
-- last one added first.
pub foreach_with_id-contents :
    (m : IndexMap) (id : BlobId)
    → IsMap m
    → (es : List IndexEntry) × (foreach_with_id m id ≡ ok es)
      × (map item es ≡ with_id id (contents m))
unfolding foreach_with_id IsMap items_below newest
foreach_with_id-contents m id (inl e) = (
  [],
  ap (λ (x : IndexMap). foreach_with_id x id) e,
  sym (ap (λ (x : IndexMap). with_id id (contents x)) e),
)
foreach_with_id-contents m id (inr (b, lo)) =
    let w =
      walk-Walked m.block_list (of_map m) (built-IsLinked m b) id m.block_list.size
        m.block_list.size (omega arith) (omega arith) in
    (w.entries, rw (some_buckets m b, head-ok m b id) w.made, w.items)

-- On a map that add has built, get returns the item with the ID that was added last, and
-- nothing if there is none.
pub get-contents :
    (m : IndexMap) (id : BlobId)
    → IsMap m
    → (o : Option IndexEntry) × (get m id ≡ ok o) × (item_of o ≡ first_of (with_id id (contents m)))
unfolding get IsMap items_below newest
get-contents m id (inl e) = (
  none,
  ap (λ (x : IndexMap). get x id) e,
  sym (ap (λ (x : IndexMap). first_of (with_id id (contents x))) e),
)
get-contents m id (inr (b, lo)) =
    let w =
      find-Found m.block_list (of_map m) (built-IsLinked m b) id m.block_list.size m.block_list.size
        (omega arith) (omega arith) in
    (w.entry, rw (some_buckets m b, head-ok m b id) w.made, w.item)

or_else-none : (o : Option ℕ) → or_else o none ≡ o
or_else-none none = refl
or_else-none (some i) = refl

-- On a map that add has built, firstIndex returns the place, counted from 1, of the first item
-- added with the ID, and nothing if there is none.
pub first_index-contents :
    (m : IndexMap) (id : BlobId) → IsMap m → first_index m id ≡ ok (position id (contents m) 1)
unfolding first_index IsMap items_below position
first_index-contents m id (inl e) =
    ap (λ (x : IndexMap). first_index x id) e
    ∙ sym (ap (λ (x : IndexMap). ok (position id (contents x) 1)) e)
first_index-contents m id (inr (b, lo)) =
    let linked = built-IsLinked m b in
    let made =
      find_first-or_else m.block_list (of_map m) linked id m.block_list.size m.block_list.size none
        (omega arith) (omega arith) tt in
    rw (some_buckets m b, head-ok m b id)
      (made
        ∙ ap ok (
            or_else-none _
            ∙ first_position-position m.block_list (of_map m) linked id m.block_list.size
                (omega arith)))

-- Len of the table counts its items.
pub length-contents : (m : IndexMap) → IsMap m → length (contents m) ≡ m.numentries
unfolding IsMap items_below
length-contents m (inl e) =
    ap (λ (x : IndexMap). length (contents x)) e ∙ sym (ap (λ (x : IndexMap). x.numentries) e)
length-contents m (inr (b, lo)) =
    ap (λ (n : ℕ). length (items_below m.block_list n)) b.count
    ∙ length-items_below m.block_list m.numentries b.chains.valid (omega (arith, b.count))
