-- ===== src/Index/MasterIndex.antt =====
-- MasterIndex of master_index.go: the indexes of a repository, and the blobs that are being saved.
-- A pointer to an index in the list is its place there. The lock is not modelled: each method runs
-- under it as a whole. `now` is what time.Now returns, and
-- `mhs` are the hashes of a new index.
pub mod Known
pub mod Storing
pub mod Merging
use restic.Prelude.{
  ℕ, zero, suc, ◌+◌, ◌≡◌, Bool, true, false, not, ◌||◌, ◌&&◌, Option, none, some, List, [], ◌∷◌,
  ◌++◌, ltb, ◌==◌, if◌then◌else◌, length, get_elem?, set, Result, ok, err, ◌>>=◌,
}
use restic.Blob.{BlobId, BlobType, BlobHandle, Blob, PackedBlob, handle_key}
use restic.Prelude.Maps.{bytes_key}
use restic.Sets
use restic.Index.PackIndex.{
  PackIndex, IndexError, out_of_range, new_index, finalize, index_full, ids_of, set_id, each,
  packs_of, PackJson, generate_pack_list, len,
}
use restic.Index.PackIndex.Operations

pub record MasterIndex : Type 0 where
  pub idx : List PackIndex
  pub pending_blobs : List BlobHandle

unfoldable pub clear : (BlobType → BlobId → ℕ) → ℕ → MasterIndex → MasterIndex
clear mhs now mi = record mi { idx = finalize (new_index mhs now) ∷ [] }

unfoldable pub new_master_index : (BlobType → BlobId → ℕ) → ℕ → MasterIndex
unfolding clear
new_master_index mhs now = clear mhs now (record { idx = []; pending_blobs = [] })

unfoldable pub each_index : List PackIndex → Result IndexError (List PackedBlob)
each_index [] = ok []
each_index (i ∷ is) = do pbs ← each i; rest ← each_index is; ok (pbs ++ rest)

-- Each, where the context is not cancelled: the blobs that fn is called with.
unfoldable pub each_blob : MasterIndex → Result IndexError (List PackedBlob)
each_blob mi = each_index mi.idx

collect_ids : List PackIndex → List BlobId → List BlobId
collect_ids [] ids = ids
collect_ids (i ∷ is) ids = elim (ids_of i) [
  | err e ↦ collect_ids is ids
  | ok index_ids ↦ collect_ids is (Sets.merge ids index_ids)
]

-- IDs; an index that is not final has none.
unfoldable pub ids : MasterIndex → List BlobId
unfolding collect_ids
ids mi = collect_ids mi.idx []

collect_packs : List BlobId → List PackIndex → List BlobId → List BlobId
collect_packs blacklist [] packs = packs
collect_packs blacklist (i ∷ is) packs =
    let idx_packs =
      if i.final && ltb 0 (length blacklist) then Sets.sub (packs_of i) blacklist else packs_of i in
    collect_packs blacklist is (Sets.merge packs idx_packs)

-- Packs
unfoldable pub packs : MasterIndex → List BlobId → List BlobId
unfolding collect_packs
packs mi blacklist = collect_packs blacklist mi.idx []

-- Insert
unfoldable pub insert : MasterIndex → PackIndex → MasterIndex
insert mi i = record mi { idx = mi.idx ++ i ∷ [] }

-- finalizeNotFinalIndexes: the list, and the places of those that were finalized.
finalize_open : ℕ → List PackIndex → List PackIndex × List ℕ
finalize_open at [] = ([], [])
finalize_open at (i ∷ is) =
    let (rest, places) = finalize_open (suc at) is in
    if not i.final then (finalize i ∷ rest, at ∷ places) else (i ∷ rest, places)

unfoldable pub finalize_not_final_indexes : MasterIndex → MasterIndex × List ℕ
unfolding finalize_open
finalize_not_final_indexes mi =
    let (idx, places) = finalize_open 0 mi.idx in (record mi { idx = idx }, places)

finalize_full : ℕ → ℕ → List PackIndex → List PackIndex × List ℕ
finalize_full now at [] = ([], [])
finalize_full now at (i ∷ is) =
    let (rest, places) = finalize_full now (suc at) is in
    if i.final
    then (i ∷ rest, places)
    else if index_full now i
    then (finalize i ∷ rest, at ∷ places)
    else (i ∷ rest, places)

unfoldable pub finalize_full_indexes : ℕ → MasterIndex → MasterIndex × List ℕ
unfolding finalize_full
finalize_full_indexes now mi =
    let (idx, places) = finalize_full now 0 mi.idx in (record mi { idx = idx }, places)

-- StorePack's loop over the blobs.
pub delete_pending : List Blob → List BlobHandle → List BlobHandle
delete_pending [] pending = pending
delete_pending (b ∷ bs) pending = delete_pending bs (Sets.delete b.handle pending)

-- Whether MergeFinalIndexes leaves an index alone.
pub stays : PackIndex → Bool
stays i = elim (ids_of i) [ err e ↦ true | ok index_ids ↦ not i.final || length index_ids == 0 ]

pub lookup_all : List PackIndex → BlobHandle → List PackedBlob → Result IndexError (List PackedBlob)
lookup_all [] bh pbs = ok pbs
lookup_all (i ∷ is) bh pbs = do pbs' ← Operations.lookup i bh pbs; lookup_all is bh pbs'

unfoldable pub lookup : MasterIndex → BlobHandle → Result IndexError (List PackedBlob)
unfolding lookup_all
lookup mi bh = lookup_all mi.idx bh []

lookup_size_all : List PackIndex → BlobHandle → Result IndexError (ℕ × Bool)
lookup_size_all [] bh = ok (0, false)
lookup_size_all (i ∷ is) bh = do
  found ← Operations.lookup_size i bh
  if found.1 then ok found else lookup_size_all is bh

unfoldable pub lookup_size : MasterIndex → BlobHandle → Result IndexError (ℕ × Bool)
unfolding lookup_size_all
lookup_size mi bh = lookup_size_all mi.idx bh

-- The loop that looks for the handle in the indexes.
pub has_in : List PackIndex → BlobHandle → Result IndexError Bool
has_in [] bh = ok false
has_in (i ∷ is) bh = do found ← Operations.has i bh; if found then ok true else has_in is bh

unfoldable pub has : MasterIndex → BlobHandle → Result IndexError Bool
unfolding has_in
has mi bh = if Sets.has bh mi.pending_blobs then ok true else has_in mi.idx bh

unfoldable pub add_pending : MasterIndex → BlobHandle → Result IndexError (MasterIndex × Bool)
unfolding has_in
add_pending mi bh = if Sets.has bh mi.pending_blobs then ok (mi, false) else (do
  found ← has_in mi.idx bh
  (if found
      then ok (mi, false)
      else ok (record mi { pending_blobs = Sets.insert bh mi.pending_blobs }, true)))

-- The pack goes to the first index that is not final, or to a new one.
pub store_in_open :
    (BlobType → BlobId → ℕ)
    → ℕ
    → List PackIndex
    → BlobId
    → List Blob
    → Result IndexError (List PackIndex)
store_in_open mhs now [] id blobs = do
  i ← Operations.store_pack (new_index mhs now) id blobs
  ok (i ∷ [])
store_in_open mhs now (i ∷ is) id blobs =
    let later = store_in_open mhs now is id blobs in
    if i.final
    then (do is' ← later; ok (i ∷ is'))
    else (do i' ← Operations.store_pack i id blobs; ok (i' ∷ is))

unfoldable pub store_pack :
    (BlobType → BlobId → ℕ) → ℕ → MasterIndex → BlobId → List Blob → Result IndexError MasterIndex
unfolding delete_pending store_in_open
store_pack mhs now mi id blobs = do
  let pending = delete_pending blobs mi.pending_blobs
  idx ← store_in_open mhs now mi.idx id blobs
  ok (record { idx = idx; pending_blobs = pending })

-- The loop over the indexes after the first: the first one, and those that stay.
pub merge_loop : PackIndex → List PackIndex → Result IndexError (PackIndex × List PackIndex)
unfolding stays
merge_loop first [] = ok (first, [])
merge_loop first (i ∷ is) =
    let left = (do (first', rest) ← merge_loop first is; ok (first', i ∷ rest)) in
    let merged = (do first' ← Operations.merge first i; merge_loop first' is) in
    if stays i then left else merged

-- The first index is the one to merge into.
pub merge_all : List PackIndex → Result IndexError (PackIndex × List PackIndex)
unfolding merge_loop
merge_all [] = err out_of_range
merge_all (first ∷ is) = merge_loop first is

unfoldable pub merge_final_indexes : MasterIndex → Result IndexError MasterIndex
unfolding merge_all
merge_final_indexes mi = do
  (first', rest) ← merge_all mi.idx
  ok (record mi { idx = first' ∷ rest })

-- blobIndex and stableLen
unfoldable pub blob_index : MasterIndex → BlobHandle → Result IndexError (Option ℕ)
blob_index mi bh = elim mi.idx [
  | [] ↦ err out_of_range
  | first ∷ is ↦ Operations.blob_index first bh
]

unfoldable pub stable_len : MasterIndex → BlobType → Result IndexError ℕ
stable_len mi t = elim mi.idx [ [] ↦ err out_of_range | first ∷ is ↦ len first t ]

-- SaveIndex of an index. Encoding and saving it is `save`, with what SaveUnpacked returns: the ID,
-- which the index gets even where there is an error, and the error.
unfoldable pub save_one :
    (List PackJson → BlobId × Option IndexError)
    → PackIndex
    → Result IndexError (PackIndex × Option IndexError)
save_one save i = do
  list ← generate_pack_list i
  i' ← set_id i (save list).0
  ok (i', (save list).1)

unfoldable pub save_places :
    (List PackJson → BlobId × Option IndexError)
    → List PackIndex
    → List ℕ
    → List PackIndex × Option IndexError
save_places save idx [] = (idx, none)
save_places save idx (place ∷ places) = elim (get_elem? idx place) [
  | none ↦ (idx, some out_of_range)
  | some i ↦ elim (save_one save i) [
    | err e ↦ (idx, some e)
    | ok (i', some e) ↦ (set idx place i', some e)
    | ok (i', none) ↦ save_places save (set idx place i') places
  ]
]

module _ (save : List PackJson → BlobId × Option IndexError) where
  -- saveIndex, for the indexes at the places.
  save_indexes : MasterIndex × List ℕ → MasterIndex × Option IndexError
  save_indexes (mi, places) =
      let (idx, failed) = save_places save mi.idx places in
      let mi' : MasterIndex = record mi { idx = idx } in
      elim failed [
        | some e ↦ (mi', some e)
        | none ↦ elim (merge_final_indexes mi') [ err e ↦ (mi', some e) | ok mi'' ↦ (mi'', none) ]
      ]

  -- SaveIndex and SaveFullIndex
  unfoldable pub save_index : MasterIndex → MasterIndex × Option IndexError
  unfolding save_indexes
  save_index mi = save_indexes (finalize_not_final_indexes mi)

  unfoldable pub save_full_index : ℕ → MasterIndex → MasterIndex × Option IndexError
  unfolding save_indexes
  save_full_index now mi = save_indexes (finalize_full_indexes now mi)
