-- ===== src/Index/PackIndex/Lookup.antt =====
-- Lookup and Each return the stored items, with their packs.
use restic.Prelude.{
  ℕ, ◌<◌, ◌≡◌, ◌≢◌, ◌∙◌, refl, sym, ap, subst, none, some, List, [], ◌∷◌, ◌++◌, append-nil, map,
  arith, length, get_elem?, get_elem?-some, ok, Bool-cases, inl, inr, bytes_eq,
}
use restic.Blob.{
  BlobId, BlobType, invalid_blob, data_blob, tree_blob, num_blob_types, BlobHandle, PackedBlob,
}
use restic.Index.IndexMap.{IndexEntry}
use restic.Index.IndexMap.Chains.{Item, item, newest, with_id}
use restic.Index.IndexMap.Prepare.{contents}
use restic.Index.IndexMap.Lookup.{foreach-contents, foreach_with_id-contents}
use restic.Index.PackIndex.{PackIndex, lift_map, to_packed_blob, to_packed_blobs, each_of, each}
use restic.Index.PackIndex.Operations.{lookup}
use restic.Index.PackIndex.Tables.{contents_of, Within, IsIndex, map_of-total}

abbrev pub pack_at : List BlobId → ℕ → BlobId
pack_at packs i = elim (get_elem? packs i) [ none ↦ [] | some id ↦ id ]

-- An item as callers see it.
abbrev pub packed : List BlobId → BlobType → Item → PackedBlob
packed packs t x = record {
  blob = record {
    handle = record { id = x.id; type = t };
    len = x.len;
    offset = x.offset;
    uncompressed = x.uncompressed;
  };
  pack_id = pack_at packs x.pack_index;
}

-- The blobs of one type that the index lists, in the order in which they were stored.
abbrev pub listing : PackIndex → BlobType → List PackedBlob
listing idx t = map (packed idx.packs t) (contents_of idx.by_type t)

pub to_packed_blob-packed :
    (packs : List BlobId) (e : IndexEntry) (t : BlobType)
    → e.pack_index < length packs
    → to_packed_blob packs e t ≡ ok (packed packs t (item e))
unfolding to_packed_blob
to_packed_blob-packed packs e t h =
    let (id, found) = get_elem?-some packs e.pack_index h in
    rw (to_packed_blob, pack_at, found) refl

to_packed_blobs-packed :
    (packs : List BlobId) (es : List IndexEntry) (t : BlobType)
    → Within (length packs) (map item es)
    → to_packed_blobs packs es t ≡ ok (map (packed packs t) (map item es))
unfolding to_packed_blobs
to_packed_blobs-packed packs [] t h = refl
to_packed_blobs-packed packs (e ∷ es) t h =
    rw (to_packed_blob-packed packs e t h.0, to_packed_blobs-packed packs es t h.1) refl

Within-newest :
    (n : ℕ) (id : BlobId) (xs acc : List Item)
    → Within n xs
    → Within n acc
    → Within n (newest id xs acc)
unfolding newest
Within-newest n id [] acc h k = k
Within-newest n id (x ∷ xs) acc h k = elim (Bool-cases (bytes_eq x.id id)) [
  | inl e ↦ rw e (Within-newest n id xs (x ∷ acc) h.1 (h.0, k))
  | inr e ↦ rw e (Within-newest n id xs acc h.1 k)
]

-- On a well-formed index, Lookup appends to its argument the stored blobs with the handle's ID
-- and type, the last one stored first, each with the pack it was stored for, and no other.
pub lookup-listing :
    (idx : PackIndex) (bh : BlobHandle) (pbs : List PackedBlob)
    → IsIndex idx
    → bh.type ≢ num_blob_types
    → lookup idx bh pbs
      ≡ ok (pbs ++ map (packed idx.packs bh.type) (with_id bh.id (contents_of idx.by_type bh.type)))
unfolding lookup contents_of lift_map
lookup-listing idx bh pbs h typed =
    let (m, e) = map_of-total idx.by_type bh.type typed in
    let (built, within) = h bh.type m e in
    let (es, made, items) = foreach_with_id-contents m bh.id built in
    let within' =
      subst (Within (length idx.packs)) (sym items)
        (Within-newest (length idx.packs) bh.id (contents m) [] within tt) in
    rw (e, made, to_packed_blobs-packed idx.packs es bh.type within')
      (ap (λ (xs : List Item). ok (pbs ++ map (packed idx.packs bh.type) xs)) items)

each_of-listing :
    (idx : PackIndex) (t : BlobType) (ts : List BlobType) (rest : List PackedBlob)
    → IsIndex idx
    → t ≢ num_blob_types
    → each_of idx ts ≡ ok rest
    → each_of idx (t ∷ ts) ≡ ok (listing idx t ++ rest)
unfolding each_of contents_of lift_map
each_of-listing idx t ts rest h typed after =
    let (m, e) = map_of-total idx.by_type t typed in
    let (built, within) = h t m e in
    let (es, made, items) = foreach-contents m built in
    let within' = subst (Within (length idx.packs)) (sym items) within in
    rw (e, made, to_packed_blobs-packed idx.packs es t within', after)
      (ap (λ (xs : List Item). ok (map (packed idx.packs t) xs ++ rest)) items)

-- On a well-formed index, Each passes on every stored blob once: those without a valid type,
-- then the data blobs, then the tree blobs, each group in the order of storing.
pub each-listing :
    (idx : PackIndex)
    → IsIndex idx
    → each idx ≡ ok (listing idx invalid_blob ++ (listing idx data_blob ++ listing idx tree_blob))
unfolding each each_of
each-listing idx h =
    let c = each_of-listing idx tree_blob [] [] h (ground arith) refl in
    let b = each_of-listing idx data_blob (tree_blob ∷ []) _ h (ground arith) c in
    let a = each_of-listing idx invalid_blob (data_blob ∷ tree_blob ∷ []) _ h (ground arith) b in
    a
    ∙ ap (λ (xs : List PackedBlob). ok (listing idx invalid_blob ++ (listing idx data_blob ++ xs)))
        (append-nil (listing idx tree_blob))
