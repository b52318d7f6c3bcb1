-- ===== src/Index/PackIndex/Operations.antt =====
-- The methods of Index that use the hash tables.
use restic.Prelude.{
  ℕ, ◌+◌, Bool, true, false, not, ◌||◌, Option, none, some, List, [], ◌∷◌, ◌++◌, ◌==◌, ltb,
  if◌then◌else◌, length, Result, ok, err, ◌>>=◌,
}
use restic.Blob.{BlobId, BlobType, BlobHandle, Blob, PackedBlob, packed_blob_eq, plaintext_length}
use restic.Index.IndexMap.{IndexEntry, add, foreach, foreach_with_id, get, first_index}
use restic.Index.PackIndex.{
  PackIndex, IndexError, does_not_fit, store_in_final, merge_not_final, map_of, set_map, lift_map,
  max_uint32, blob_types, new_index, add_to_packs, to_packed_blob, to_packed_blobs, PackJson,
}

-- m.add for the map of a type
unfoldable pub add_entry :
    PackIndex → BlobType → BlobId → ℕ → ℕ → ℕ → ℕ → Result IndexError PackIndex
add_entry idx t id pack_index offset length uncompressed = do
  m ← map_of idx.by_type t
  m' ← lift_map (add m id pack_index offset length uncompressed)
  ok (record idx { by_type = set_map idx.by_type t m' })

unfoldable pub store : PackIndex → ℕ → Blob → Result IndexError PackIndex
unfolding add_entry
store idx pack_index b =
    if ltb max_uint32 b.offset || ltb max_uint32 b.len || ltb max_uint32 b.uncompressed
    then err does_not_fit
    else add_entry idx b.type b.id pack_index b.offset b.len b.uncompressed

unfoldable pub store_all : PackIndex → ℕ → List Blob → Result IndexError PackIndex
store_all idx pack_index [] = ok idx
store_all idx pack_index (b ∷ bs) = do idx' ← store idx pack_index b; store_all idx' pack_index bs

unfoldable pub store_pack : PackIndex → BlobId → List Blob → Result IndexError PackIndex
unfolding store_all store
store_pack idx id blobs =
    if idx.final
    then err store_in_final
    else (let (idx', pack_index) = add_to_packs idx id in store_all idx' pack_index blobs)

unfoldable pub lookup :
    PackIndex → BlobHandle → List PackedBlob → Result IndexError (List PackedBlob)
unfolding to_packed_blobs
lookup idx bh pbs = do
  m ← map_of idx.by_type bh.type
  es ← lift_map (foreach_with_id m bh.id)
  found ← to_packed_blobs idx.packs es bh.type
  ok (pbs ++ found)

unfoldable pub has : PackIndex → BlobHandle → Result IndexError Bool
has idx bh = do
  m ← map_of idx.by_type bh.type
  e ← lift_map (get m bh.id)
  ok (elim e [ none ↦ false | some x ↦ true ])

entry_size : Option IndexEntry → ℕ × Bool
entry_size none = (0, false)
entry_size (some e) =
    if not (e.uncompressed == 0) then (e.uncompressed, true) else (plaintext_length e.len, true)

unfoldable pub lookup_size : PackIndex → BlobHandle → Result IndexError (ℕ × Bool)
unfolding entry_size
lookup_size idx bh = do
  m ← map_of idx.by_type bh.type
  e ← lift_map (get m bh.id)
  ok (entry_size e)

unfoldable pub blob_index : PackIndex → BlobHandle → Result IndexError (Option ℕ)
blob_index idx bh = do m ← map_of idx.by_type bh.type; lift_map (first_index m bh.id)

unfoldable pub some_equal : PackedBlob → List PackedBlob → Bool
some_equal b [] = false
some_equal b (x ∷ xs) = packed_blob_eq x b || some_equal b xs

-- hasIdenticalEntry, for the blob of the other index
unfoldable pub has_identical_entry : PackIndex → PackedBlob → Result IndexError Bool
unfolding some_equal
has_identical_entry idx b2 = do found ← lookup idx b2.handle []; ok (some_equal b2 found)

-- The loop of merge over the entries of one type.
unfoldable pub merge_entries :
    PackIndex → PackIndex → ℕ → BlobType → List IndexEntry → Result IndexError PackIndex
unfolding has_identical_entry add_entry
merge_entries idx idx2 packlen t [] = ok idx
merge_entries idx idx2 packlen t (e2 ∷ es) = do
  b2 ← to_packed_blob idx2.packs e2 t
  identical ← has_identical_entry idx b2
  idx' ←
      (if not identical
        then add_entry idx t e2.id (e2.pack_index + packlen) e2.offset e2.len e2.uncompressed
        else ok idx)
  merge_entries idx' idx2 packlen t es

unfoldable pub merge_types : PackIndex → PackIndex → ℕ → List BlobType → Result IndexError PackIndex
unfolding merge_entries
merge_types idx idx2 packlen [] = ok idx
merge_types idx idx2 packlen (t ∷ ts) = do
  m2 ← map_of idx2.by_type t
  es ← lift_map (foreach m2)
  idx' ← merge_entries idx idx2 packlen t es
  merge_types idx' idx2 packlen ts

unfoldable pub merge : PackIndex → PackIndex → Result IndexError PackIndex
unfolding merge_types
merge idx idx2 = if not idx2.final then err merge_not_final else (do
  let packlen = length idx.packs
  idx' ← merge_types (record idx { packs = idx.packs ++ idx2.packs }) idx2 packlen blob_types
  ok (record idx' { ids = idx'.ids ++ idx2.ids }))

unfoldable pub decode_packs : PackIndex → List PackJson → Result IndexError PackIndex
unfolding store_all
decode_packs idx [] = ok idx
decode_packs idx (p ∷ ps) = do
  let (idx', pack_index) = add_to_packs idx p.id
  idx'' ← store_all idx' pack_index p.blobs
  decode_packs idx'' ps

-- DecodeIndex after json.Unmarshal has returned the packs.
unfoldable pub decode_index :
    (BlobType → BlobId → ℕ) → ℕ → List PackJson → BlobId → Result IndexError PackIndex
unfolding decode_packs
decode_index mhs now packs id = do
  idx ← decode_packs (new_index mhs now) packs
  ok (record idx { ids = idx.ids ++ id ∷ []; final = true })
