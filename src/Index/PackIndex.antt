-- ===== src/Index/PackIndex.antt =====
-- Index of index.go: one indexMap for each type of blob, and the packs that the entries name.
-- The lock is not modelled: each method runs under it as a whole.
-- `now` is what time.Now returns.
pub mod Operations
pub mod Tables
pub mod Store
pub mod Lookup
pub mod Merge
pub mod Union
use restic.Prelude.{
  ℕ, zero, suc, ◌+◌, ◌-◌, ◌*◌, ◌^◌, ◌≤◌, ◌<◌, Bool, true, false, not, ◌||◌, ◌&&◌, Option, none,
  some, List, [], ◌∷◌, ◌++◌, ◌==◌, ltb, leb, if◌then◌else◌, length, replicate, get_elem?, Result,
  ok, err, ◌>>=◌, bytes_eq,
}
use restic.Blob.{
  BlobId, BlobType, invalid_blob, data_blob, tree_blob, num_blob_types, BlobHandle, Blob,
  PackedBlob, insert_id,
}
use restic.Index.IndexMap.{
  IndexEntry, IndexMap, empty_map, Panic, add, foreach, foreach_with_id, get, first_index,
}

-- What the methods stop with; the first four are panics.
pub data IndexError : Type 0 where
  does_not_fit store_in_final null_pack_id out_of_range : IndexError
  not_final id_already_set merge_not_final : IndexError
  in_map : Panic → IndexError

-- The array byType.
pub record ByType : Type 0 where
  pub invalid : IndexMap
  pub data_map : IndexMap
  pub tree : IndexMap

pub record PackIndex : Type 0 where
  pub by_type : ByType
  pub packs : List BlobId
  pub final : Bool
  pub ids : List BlobId
  pub created : ℕ

unfoldable pub map_of : ByType → BlobType → Result IndexError IndexMap
map_of b invalid_blob = ok b.invalid
map_of b data_blob = ok b.data_map
map_of b tree_blob = ok b.tree
map_of b num_blob_types = err out_of_range

unfoldable pub set_map : ByType → BlobType → IndexMap → ByType
set_map b invalid_blob m = record b { invalid = m }
set_map b data_blob m = record b { data_map = m }
set_map b tree_blob m = record b { tree = m }
set_map b num_blob_types m = b

unfoldable pub lift_map {ℓ} : {A : Type ℓ} → Result Panic A → Result IndexError A
lift_map (ok a) = ok a
lift_map (err e) = err (in_map e)

abbrev pub max_uint32 : ℕ
max_uint32 = 2 ^ 32 - 1

-- The types that `range idx.byType` visits, in its order.
abbrev pub blob_types : List BlobType
blob_types = invalid_blob ∷ data_blob ∷ tree_blob ∷ []

-- NewIndex; `mhs` are the hashes under the seeds that its maps draw.
unfoldable pub new_index : (BlobType → BlobId → ℕ) → ℕ → PackIndex
new_index mhs now = record {
  by_type = record {
    invalid = empty_map (mhs invalid_blob);
    data_map = empty_map (mhs data_blob);
    tree = empty_map (mhs tree_blob);
  };
  packs = [];
  final = false;
  ids = [];
  created = now;
}

unfoldable pub add_to_packs : PackIndex → BlobId → PackIndex × ℕ
add_to_packs idx id =
    let packs = idx.packs ++ id ∷ [] in (record idx { packs = packs }, length packs - 1)

abbrev pub index_max_blobs : ℕ
index_max_blobs = 50000

-- 10 minutes in nanoseconds.
abbrev pub index_max_age : ℕ
index_max_age = 10 * 60 * 10 ^ 9

-- IndexFull at the time `now`.
unfoldable pub index_full : ℕ → PackIndex → Bool
index_full now idx =
    let blobs =
      idx.by_type.invalid.numentries + idx.by_type.data_map.numentries
      + idx.by_type.tree.numentries in
    let age = now - idx.created in if leb index_max_age age then true else leb index_max_blobs blobs

unfoldable pub to_packed_blob : List BlobId → IndexEntry → BlobType → Result IndexError PackedBlob
to_packed_blob packs e t = elim (get_elem? packs e.pack_index) [
  | none ↦ err out_of_range
  | some pack_id ↦ ok (record {
    blob = record {
      handle = record { id = e.id; type = t };
      len = e.len;
      offset = e.offset;
      uncompressed = e.uncompressed;
    };
    pack_id = pack_id;
  })
]

pub to_packed_blobs : List BlobId → List IndexEntry → BlobType → Result IndexError (List PackedBlob)
to_packed_blobs packs [] t = ok []
to_packed_blobs packs (e ∷ es) t = do
  pb ← to_packed_blob packs e t
  rest ← to_packed_blobs packs es t
  ok (pb ∷ rest)

-- Each, where the context is not cancelled: the blobs that fn is called with.
unfoldable pub each_of : PackIndex → List BlobType → Result IndexError (List PackedBlob)
each_of idx [] = ok []
each_of idx (t ∷ ts) = do
  m ← map_of idx.by_type t
  es ← lift_map (foreach m)
  pbs ← to_packed_blobs idx.packs es t
  rest ← each_of idx ts
  ok (pbs ++ rest)

unfoldable pub each : PackIndex → Result IndexError (List PackedBlob)
unfolding each_of
each idx = each_of idx blob_types

insert_ids : List BlobId → List BlobId → List BlobId
insert_ids [] set = set
insert_ids (x ∷ xs) set = insert_ids xs (insert_id x set)

-- Packs: the set as a list without repetition.
unfoldable pub packs_of : PackIndex → List BlobId
unfolding insert_ids
packs_of idx = insert_ids idx.packs []

-- packJSON; its blobs are those of blobJSON, which has the fields of a Blob.
pub record PackJson : Type 0 where
  pub id : BlobId
  pub blobs : List Blob

-- The list and the map of generatePackList in one: the first pack with the ID takes the blob.
put_blob : BlobId → Blob → List PackJson → List PackJson
put_blob id b [] = record { id = id; blobs = b ∷ [] } ∷ []
put_blob id b (p ∷ ps) =
    if bytes_eq p.id id then record p { blobs = p.blobs ++ b ∷ [] } ∷ ps else p ∷ put_blob id b ps

put_blobs : List PackedBlob → List PackJson → Result IndexError (List PackJson)
put_blobs [] list = ok list
put_blobs (pb ∷ pbs) list =
    if bytes_eq pb.pack_id (replicate 32 0)
    then err null_pack_id
    else put_blobs pbs (put_blob pb.pack_id pb.blob list)

unfoldable pub generate_pack_list : PackIndex → Result IndexError (List PackJson)
unfolding put_blobs put_blob
generate_pack_list idx = do pbs ← each idx; put_blobs pbs []

unfoldable pub finalize : PackIndex → PackIndex
finalize idx = record idx { final = true }

unfoldable pub ids_of : PackIndex → Result IndexError (List BlobId)
ids_of idx = if not idx.final then err not_final else ok idx.ids

unfoldable pub set_id : PackIndex → BlobId → Result IndexError PackIndex
set_id idx id =
    if not idx.final
    then err not_final
    else if ltb 0 (length idx.ids)
    then err id_already_set
    else ok (record idx { ids = idx.ids ++ id ∷ [] })

unfoldable pub len : PackIndex → BlobType → Result IndexError ℕ
len idx t = do m ← map_of idx.by_type t; ok m.numentries
