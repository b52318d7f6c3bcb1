-- ===== src/Index/IndexMap/Chains.antt =====
-- What the chains and the positions of an indexMap stand for.
use restic.Prelude.{
  ℕ, zero, suc, ◌≤◌, ◌<◌, ◌≡◌, refl, ap₂, Bool, Option, none, some, List, [], ◌∷◌, ◌++◌, ◌==◌,
  if◌then◌else◌, arith, ok, bytes_eq,
}
use restic.Blob.{BlobId}
use restic.Index.HashedArrayTree.{HashedArrayTree, ref}
use restic.Index.HashedArrayTree.Invariant.{IsValid}
use restic.Index.IndexMap.{IndexEntry, resolve}

-- An entry without its link: what callers see.
pub record Item : Type 0 where
  pub id : BlobId
  pub pack_index : ℕ
  pub offset : ℕ
  pub len : ℕ
  pub uncompressed : ℕ

abbrev pub item : IndexEntry → Item
item e = record {
  id = e.id;
  pack_index = e.pack_index;
  offset = e.offset;
  len = e.len;
  uncompressed = e.uncompressed;
}

abbrev pub item_at : HashedArrayTree IndexEntry → ℕ → Option Item
item_at bl i = elim (ref bl i) [ none ↦ none | some e ↦ some (item e) ]

abbrev pub listed : Option Item → List Item
listed none = []
listed (some x) = x ∷ []

-- The items at the positions from 1 up to, but without, `n`.
unfoldable pub items_below : HashedArrayTree IndexEntry → ℕ → List Item
items_below bl zero = []
items_below bl (suc zero) = []
items_below bl (suc (suc n)) = items_below bl (suc n) ++ listed (item_at bl (suc n))

-- The items with an ID, the last one of the list first.
unfoldable pub newest : BlobId → List Item → List Item → List Item
newest id [] acc = acc
newest id (x ∷ xs) acc = newest id xs (if bytes_eq x.id id then x ∷ acc else acc)

abbrev pub with_id : BlobId → List Item → List Item
with_id id xs = newest id xs []

pub newest-snoc :
    (id : BlobId) (xs : List Item) (x : Item) (acc : List Item)
    → newest id (xs ++ x ∷ []) acc
      ≡ (if bytes_eq x.id id then x ∷ newest id xs acc else newest id xs acc)
unfolding newest
newest-snoc id [] x acc = refl
newest-snoc id (y ∷ xs) x acc = newest-snoc id xs x (if bytes_eq y.id id then y ∷ acc else acc)

abbrev pub chosen : Option Item → (BlobId → Bool) → ℕ → ℕ → ℕ
chosen none test i rest = rest
chosen (some x) test i rest = if test x.id then i else rest

-- The largest position from 1 up to, but without, `n` whose ID passes the test, or 0.
unfoldable pub last_with : HashedArrayTree IndexEntry → (BlobId → Bool) → ℕ → ℕ
last_with bl test zero = 0
last_with bl test (suc zero) = 0
last_with bl test (suc (suc n)) =
    chosen (item_at bl (suc n)) test (suc n) (last_with bl test (suc n))

-- Two arrays that show the same items below `n`.
abbrev pub SameBelow : HashedArrayTree IndexEntry → HashedArrayTree IndexEntry → ℕ → Type 0
SameBelow a b n = (i : ℕ) → i < n → item_at a i ≡ item_at b i

pub items_below-same :
    (a b : HashedArrayTree IndexEntry) (n : ℕ) → SameBelow a b n → items_below a n ≡ items_below b n
unfolding items_below
items_below-same a b zero h = refl
items_below-same a b (suc zero) h = refl
items_below-same a b (suc (suc n)) h =
    ap₂ (λ (xs : List Item) (o : Option Item). xs ++ listed o)
      (items_below-same a b (suc n) (λ i lt. h i (omega arith))) (h (suc n) (omega arith))

pub last_with-same :
    (a b : HashedArrayTree IndexEntry) (test : BlobId → Bool) (n : ℕ)
    → SameBelow a b n
    → last_with a test n ≡ last_with b test n
unfolding last_with
last_with-same a b test zero h = refl
last_with-same a b test (suc zero) h = refl
last_with-same a b test (suc (suc n)) h =
    ap₂ (λ (k : ℕ) (o : Option Item). chosen o test (suc n) k)
      (last_with-same a b test (suc n) (λ i lt. h i (omega arith))) (h (suc n) (omega arith))

-- Every link leads to the entry before it in its bucket.
pub record IsLinked (bl : HashedArrayTree IndexEntry) (bucket_of : BlobId → ℕ) : Type 0 where
  pub valid : IsValid bl
  pub nexts :
      (i : ℕ) (e : IndexEntry)
      → 1 ≤ i
      → i < bl.size
      → ref bl i ≡ some e
      → e.next ≡ last_with bl (λ id. bucket_of id == bucket_of e.id) i

pub resolve-ok :
    (bl : HashedArrayTree IndexEntry) (i : ℕ) (e : IndexEntry)
    → ref bl i ≡ some e
    → resolve bl i ≡ ok e
unfolding resolve
resolve-ok bl i e h = ground arith

pub item_at-some :
    (bl : HashedArrayTree IndexEntry) (i : ℕ) (e : IndexEntry)
    → ref bl i ≡ some e
    → item_at bl i ≡ some (item e)
item_at-some bl i e h = ground arith
