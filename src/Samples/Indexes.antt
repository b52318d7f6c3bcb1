-- ===== src/Samples/Indexes.antt =====
-- A hashed array tree, a hash table and an index with a pack of two blobs.
use restic.Prelude.{
  ℕ, ◌+◌, ◌<◌, ◌≡◌, ◌≢◌, refl, false, inl, Option, List, [], ◌∷◌, ◌++◌, arith, length, map,
  replicate, All, ok,
}
use restic.Blob.{
  BlobId, BlobType, invalid_blob, data_blob, tree_blob, num_blob_types, BlobHandle, Blob,
}
use restic.Index.HashedArrayTree.{HashedArrayTree, new_hat, alloc}
use restic.Index.HashedArrayTree.Invariant.{IsValid, new_hat-IsValid}
use restic.Index.HashedArrayTree.Growth.{alloc-IsValid}
use restic.Index.IndexMap.{IndexEntry, IndexMap, empty_map, add, foreach_with_id, get, first_index}
use restic.Index.IndexMap.Chains.{item, with_id}
use restic.Index.IndexMap.Walks.{first_of, item_of}
use restic.Index.IndexMap.Prepare.{IsMap, contents}
use restic.Index.IndexMap.Add.{add-IsMap}
use restic.Index.IndexMap.Lookup.{
  position, foreach_with_id-contents, get-contents, first_index-contents,
}
use restic.Index.PackIndex.{PackIndex, new_index, each}
use restic.Index.PackIndex.Operations.{store_pack, lookup}
use restic.Index.PackIndex.Tables.{contents_of, IsIndex, IsStorable, items_for}
use restic.Index.PackIndex.Store.{store_pack-contents, new_index-IsIndex}
use restic.Index.PackIndex.Lookup.{packed, listing, lookup-listing, each-listing}

abbrev tree0 : HashedArrayTree ℕ
tree0 = new_hat

-- A tree with one element.
abbrev tree1 : HashedArrayTree ℕ
tree1 = (alloc 0 tree0).0

tree1-IsValid : IsValid tree1
tree1-IsValid = (alloc-IsValid 0 tree0 new_hat-IsValid).0

tree1-size : 0 < tree1.size
unfolding new_hat
tree1-size = let (_, size, _) = alloc-IsValid 0 tree0 new_hat-IsValid in omega arith

alloc-IsValid_example :
    IsValid (alloc 0 tree1).0
    × ((alloc 0 tree1).0.size ≡ tree1.size + 1)
    × ((alloc 0 tree1).1 ≡ tree1.size)
alloc-IsValid_example = alloc-IsValid 0 tree1 tree1-IsValid

-- A hash that tells no IDs apart.
abbrev flat_sum : BlobId → ℕ
flat_sum id = 12

abbrev pub id1 : BlobId
id1 = replicate 32 1

empty-IsMap : IsMap (empty_map flat_sum)
unfolding IsMap
empty-IsMap = inl refl

add-IsMap_example :
    (m' : IndexMap) × (add (empty_map flat_sum) id1 3 4 5 6 ≡ ok m')
    × IsMap m'
    × (m'.numentries ≡ 0 + 1)
    × (contents m'
        ≡ contents (empty_map flat_sum)
          ++ record { id = id1; pack_index = 3; offset = 4; len = 5; uncompressed = 6 } ∷ [])
add-IsMap_example = add-IsMap (empty_map flat_sum) id1 3 4 5 6 empty-IsMap

abbrev map1 : IndexMap
map1 = (add-IsMap (empty_map flat_sum) id1 3 4 5 6 empty-IsMap).0

map1-IsMap : IsMap map1
map1-IsMap = (add-IsMap (empty_map flat_sum) id1 3 4 5 6 empty-IsMap).2

foreach_with_id-contents_example :
    (es : List IndexEntry) × (foreach_with_id map1 id1 ≡ ok es)
    × (map item es ≡ with_id id1 (contents map1))
foreach_with_id-contents_example = foreach_with_id-contents map1 id1 map1-IsMap

get-contents_example :
    (o : Option IndexEntry) × (get map1 id1 ≡ ok o)
    × (item_of o ≡ first_of (with_id id1 (contents map1)))
get-contents_example = get-contents map1 id1 map1-IsMap

first_index-contents_example : first_index map1 id1 ≡ ok (position id1 (contents map1) 1)
first_index-contents_example = first_index-contents map1 id1 map1-IsMap

-- The three maps of an index hash by seeds of their own.
abbrev pub sums : BlobType → BlobId → ℕ
sums data_blob id = 12
sums t id = 5

abbrev pub blob1 : Blob
blob1 = record {
  handle = record { id = id1; type = data_blob };
  len = 5;
  offset = 0;
  uncompressed = 9;
}

abbrev blob2 : Blob
blob2 = record {
  handle = record { id = replicate 32 2; type = tree_blob };
  len = 6;
  offset = 5;
  uncompressed = 0;
}

abbrev pub two_blobs : List Blob
two_blobs = blob1 ∷ blob2 ∷ []

pub two_blobs-IsStorable : All IsStorable two_blobs
two_blobs-IsStorable = (
  record { typed = λ h. cc; offset = omega arith; len = omega arith; uncompressed = omega arith },
  (
    record { typed = λ h. cc; offset = omega arith; len = omega arith; uncompressed = omega arith },
    tt,
  ),
)

abbrev pub fresh : PackIndex
fresh = new_index sums 1000

pub still_open : fresh.final ≡ false
unfolding new_index
still_open = refl

store_pack-contents_example :
    (idx' : PackIndex) × (store_pack fresh (replicate 32 7) two_blobs ≡ ok idx')
    × IsIndex idx'
    × (idx'.packs ≡ fresh.packs ++ replicate 32 7 ∷ [])
    × ((t : BlobType)
        → contents_of idx'.by_type t
          ≡ contents_of fresh.by_type t ++ items_for (length fresh.packs) t two_blobs)
store_pack-contents_example =
    store_pack-contents fresh (replicate 32 7) two_blobs (new_index-IsIndex sums 1000) still_open
      two_blobs-IsStorable

new_index-IsIndex_example : IsIndex (new_index sums 1000)
new_index-IsIndex_example = new_index-IsIndex sums 1000

abbrev pub stored : PackIndex
stored =
    (store_pack-contents fresh (replicate 32 7) two_blobs (new_index-IsIndex sums 1000) still_open
      two_blobs-IsStorable).0

pub stored-IsIndex : IsIndex stored
stored-IsIndex =
    (store_pack-contents fresh (replicate 32 7) two_blobs (new_index-IsIndex sums 1000) still_open
      two_blobs-IsStorable).2

abbrev pub handle1 : BlobHandle
handle1 = record { id = id1; type = data_blob }

pub typed1 : data_blob ≢ num_blob_types
typed1 h = cc

lookup-listing_example :
    lookup stored handle1 []
    ≡ ok (
        []
        ++ map (packed stored.packs data_blob) (with_id id1 (contents_of stored.by_type data_blob)))
lookup-listing_example = lookup-listing stored handle1 [] stored-IsIndex typed1

each-listing_example :
    each stored
    ≡ ok (listing stored invalid_blob ++ (listing stored data_blob ++ listing stored tree_blob))
each-listing_example = each-listing stored stored-IsIndex
