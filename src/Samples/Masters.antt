-- ===== src/Samples/Masters.antt =====
-- A MasterIndex of an empty index and a saved one, and an AssociatedSet over it.
use restic.Prelude.{
  ℕ, ◌≡◌, ◌≢◌, refl, true, false, not, ◌||◌, Option, none, some, List, [], ◌∷◌, ◌++◌, if◌then◌else◌,
  All, replicate, Result, ok,
}
use restic.Blob.{BlobId, BlobType, num_blob_types, BlobHandle, handle_eq, handle_key}
use restic.Sets
use restic.Sets.Members.{IsUnique, equals-has}
use restic.Prelude.{◌↔◌, ◌+◌, length, Bool, arith}
use restic.Index.IndexMap.Chains.{Item}
use restic.Index.PackIndex.{PackIndex, new_index}
use restic.Index.PackIndex.Operations.{merge}
use restic.Index.PackIndex.Tables.{contents_of, IsIndex}
use restic.Index.PackIndex.Store.{new_index-IsIndex}
use restic.Index.PackIndex.Lookup.{listing}
use restic.Index.PackIndex.Union.{union, merge-listing}
use restic.Index.MasterIndex.{MasterIndex, has, add_pending, store_pack, stays, merge_final_indexes}
use restic.Index.MasterIndex.Known.{known, among, IsMaster, add_pending-known}
use restic.Index.MasterIndex.Storing.{store_pack-known}
use restic.Index.MasterIndex.Merging.{starting_with, merge_final_indexes-known}
use restic.Index.AssociatedSet.{AssociatedSet, get, set_value, delete_value}
use restic.Index.AssociatedSet.MapLaws.{IsAssociated}
use restic.Index.AssociatedSet.Updates.{get-set_value}
use restic.Index.AssociatedSet.Removal.{get-delete_value}
use restic.Index.AssociatedSet.Created.{get-new_associated_set}
use restic.Index.AssociatedSet.Stable.{get-merge_final_indexes}
use restic.Samples.Indexes.{
  id1, sums, two_blobs, two_blobs-IsStorable, stored, stored-IsIndex, handle1, typed1,
}

-- Seeds of another index.
abbrev other_sums : BlobType → BlobId → ℕ
other_sums t id = length id + 3

-- The empty final index of a new MasterIndex.
abbrev base : PackIndex
base = record (new_index other_sums 1000) { final = true }

base-IsIndex : IsIndex base
base-IsIndex = new_index-IsIndex other_sums 1000

-- An index with two blobs, as loaded from its file.
abbrev loaded : PackIndex
loaded = record stored { final = true; ids = replicate 32 9 ∷ [] }

loaded-IsIndex : IsIndex loaded
loaded-IsIndex = stored-IsIndex

merge-listing_example :
    (idx' : PackIndex) × (merge base loaded ≡ ok idx')
    × IsIndex idx'
    × (idx'.ids ≡ base.ids ++ loaded.ids)
    × ((t : BlobType)
        → t ≢ num_blob_types
        → listing idx' t ≡ union (listing base t) (listing loaded t))
merge-listing_example = merge-listing base loaded base-IsIndex loaded-IsIndex refl

abbrev master : MasterIndex
master = starting_with base (loaded ∷ []) []

master-IsMaster : IsMaster master
master-IsMaster = (base-IsIndex, (loaded-IsIndex, tt))

add_pending-known_example :
    (mi' : MasterIndex) × (add_pending master handle1 ≡ ok (mi', not (known handle1 master)))
    × (mi'.idx ≡ master.idx)
    × ((other : BlobHandle)
        → other.type ≢ num_blob_types
        → has mi' other ≡ ok (handle_eq handle1 other || known other master))
add_pending-known_example = add_pending-known master handle1 master-IsMaster typed1

store_pack-known_example :
    (mi' : MasterIndex) × (store_pack sums 2000 master id1 two_blobs ≡ ok mi')
    × IsMaster mi'
    × ((other : BlobHandle)
        → Sets.has other mi'.pending_blobs
          ≡ (if among other two_blobs then false else Sets.has other master.pending_blobs))
    × ((other : BlobHandle)
        → other.type ≢ num_blob_types
        → has mi' other ≡ ok (among other two_blobs || known other master))
store_pack-known_example =
    store_pack-known sums 2000 master id1 two_blobs master-IsMaster two_blobs-IsStorable

merge_final_indexes-known_example :
    (first' : PackIndex) × (rest : List PackIndex) × (merge_final_indexes
        (starting_with base (loaded ∷ []) [])
      ≡ ok (starting_with first' rest []))
    × IsMaster (starting_with first' rest [])
    × All (λ i. stays i ≡ true) rest
    × ((other : BlobHandle)
        → other.type ≢ num_blob_types
        → has (starting_with first' rest []) other
          ≡ ok (known other (starting_with base (loaded ∷ []) [])))
    × ((t : BlobType)
        → t ≢ num_blob_types
        → (added : List Item) × (contents_of first'.by_type t
            ≡ contents_of base.by_type t ++ added))
merge_final_indexes-known_example = merge_final_indexes-known base (loaded ∷ []) [] master-IsMaster

-- A set over a MasterIndex whose first index has the two blobs.
abbrev numbers : AssociatedSet ℕ
numbers = (get-new_associated_set loaded (base ∷ []) [] loaded-IsIndex 0).0

numbers-IsAssociated : IsAssociated loaded (base ∷ []) [] loaded-IsIndex numbers
numbers-IsAssociated = (get-new_associated_set loaded (base ∷ []) [] loaded-IsIndex 0).2

get-set_value_example :
    (a' : AssociatedSet ℕ) × (set_value numbers handle1 7 ≡ ok a')
    × IsAssociated loaded (base ∷ []) [] loaded-IsIndex a'
    × ((other : BlobHandle)
        → other.type ≢ num_blob_types
        → get a' other ≡ (if handle_eq handle1 other then ok (some 7) else get numbers other))
get-set_value_example =
    get-set_value loaded (base ∷ []) [] loaded-IsIndex numbers handle1 7 numbers-IsAssociated typed1

get-delete_value_example :
    (a' : AssociatedSet ℕ) × (delete_value numbers handle1 ≡ ok a')
    × IsAssociated loaded (base ∷ []) [] loaded-IsIndex a'
    × ((other : BlobHandle)
        → other.type ≢ num_blob_types
        → get a' other ≡ (if handle_eq handle1 other then ok none else get numbers other))
get-delete_value_example =
    get-delete_value loaded (base ∷ []) [] loaded-IsIndex numbers handle1 numbers-IsAssociated
      typed1

get-merge_final_indexes_example :
    (mi' : MasterIndex) × (merge_final_indexes (starting_with loaded (base ∷ []) []) ≡ ok mi')
    × (first' : PackIndex) × (rest : List PackIndex) × (valid : IsIndex first') × IsAssociated
        first' rest [] valid
        (record numbers { idx = mi' })
    × ((other : BlobHandle)
        → other.type ≢ num_blob_types
        → get (record numbers { idx = mi' }) other ≡ get numbers other)
get-merge_final_indexes_example =
    get-merge_final_indexes loaded (base ∷ []) [] numbers (loaded-IsIndex, (base-IsIndex, tt))
      numbers-IsAssociated

abbrev first_ids : List BlobHandle
first_ids = handle1 ∷ record handle1 { id = replicate 32 2 } ∷ []

abbrev same_ids : List BlobHandle
same_ids = record handle1 { id = replicate 32 2 } ∷ handle1 ∷ []

first_ids-IsUnique : IsUnique first_ids
unfolding Sets.has handle_eq restic.Prelude.bytes_eq
first_ids-IsUnique = (refl, (refl, tt))

same_ids-IsUnique : IsUnique same_ids
unfolding Sets.has handle_eq restic.Prelude.bytes_eq
same_ids-IsUnique = (refl, (refl, tt))

equals-has_example :
    (Sets.equals first_ids same_ids ≡ true)
    ↔ ((k : BlobHandle) → Sets.has k first_ids ≡ Sets.has k same_ids)
equals-has_example = equals-has first_ids same_ids first_ids-IsUnique same_ids-IsUnique
