-- ===== src/Index/PackIndex/Union.antt =====
-- The blobs that a merged index lists, compared with those of the two indexes.
use restic.Prelude.{
  ◌≡◌, ◌≢◌, ◌∙◌, refl, sym, ap, ap₂, Bool, true, false, ◌||◌, List, [], ◌∷◌, ◌++◌, map, map-append,
  if◌then◌else◌, arith, length, get_elem?-append_left, ok, Option, none, some, Bool-cases, inl, inr,
  bytes_eq, bytes_eq_iff,
}
use restic.Blob.{BlobId, BlobType, num_blob_types, PackedBlob, packed_blob_eq, packed_blob_eq→eq}
use restic.Index.IndexMap.Chains.{Item, newest, with_id}
use restic.Index.PackIndex.{PackIndex}
use restic.Index.PackIndex.Operations.{some_equal, merge}
use restic.Index.PackIndex.Tables.{contents_of, Within, IsIndex}
use restic.Index.PackIndex.Store.{contents_of-Within}
use restic.Index.PackIndex.Lookup.{packed, listing}
use restic.Index.PackIndex.Merge.{shifted, absorbed, others, other_packed, merge-absorbed}

-- Two lists of blobs in one, without what is there already.
pub union : List PackedBlob → List PackedBlob → List PackedBlob
union xs [] = xs
union xs (y ∷ ys) = union (if some_equal y xs then xs else xs ++ y ∷ []) ys

packed-ne :
    (all : List BlobId) (t : BlobType) (x y : Item)
    → bytes_eq x.id y.id ≡ false
    → packed_blob_eq (packed all t x) (packed all t y) ≡ false
packed-ne all t x y e = elim (Bool-cases (packed_blob_eq (packed all t x) (packed all t y))) [
  | inr h ↦ h
  | inl h ↦
      let same =
        ap (λ (p : PackedBlob). p.id) (packed_blob_eq→eq (packed all t x) (packed all t y) h) in
      cc (e, (bytes_eq_iff x.id y.id).1 same)
]

-- It is enough to compare a blob with the items of its ID.
some_equal-newest :
    (all : List BlobId) (t : BlobType) (y : Item) (xs acc : List Item)
    → some_equal (packed all t y) (map (packed all t) (newest y.id xs acc)) ≡ (
        some_equal (packed all t y) (map (packed all t) acc)
        || some_equal (packed all t y) (map (packed all t) xs))
unfolding some_equal newest
some_equal-newest all t y [] acc = ground arith
some_equal-newest all t y (x ∷ xs) acc = elim (Bool-cases (bytes_eq x.id y.id)) [
  | inl e ↦ rw e (some_equal-newest all t y xs (x ∷ acc) ∙ ground arith)
  | inr e ↦
      let other = packed-ne all t x y e in rw e (some_equal-newest all t y xs acc ∙ ground arith)
]

pushed :
    (all : List BlobId) (t : BlobType) (xs : List Item) (y : Item) (k : Bool)
    → map (packed all t) (if k then xs else xs ++ y ∷ [])
      ≡ (if k then map (packed all t) xs else map (packed all t) xs ++ packed all t y ∷ [])
pushed all t xs y true = refl
pushed all t xs y false = map-append (packed all t) xs (y ∷ [])

map-absorbed :
    (all : List BlobId) (t : BlobType) (xs ys : List Item)
    → map (packed all t) (absorbed all t xs ys)
      ≡ union (map (packed all t) xs) (map (packed all t) ys)
unfolding union absorbed some_equal
map-absorbed all t xs [] = refl
map-absorbed all t xs (y ∷ ys) =
    let test = some_equal-newest all t y xs [] in
    map-absorbed all t
      (if some_equal (packed all t y) (map (packed all t) (with_id y.id xs))
        then xs
        else xs ++ y ∷ [])
      ys
    ∙ ap (λ (zs : List PackedBlob). union zs (map (packed all t) ys))
        (ap (λ (k : Bool). map (packed all t) (if k then xs else xs ++ y ∷ [])) test
          ∙ pushed all t xs y (some_equal (packed all t y) (map (packed all t) xs)))

-- An item, given the ID of its pack.
abbrev named : BlobType → Item → Option BlobId → PackedBlob
named t x o = record {
  blob = record {
    handle = record { id = x.id; type = t };
    len = x.len;
    offset = x.offset;
    uncompressed = x.uncompressed;
  };
  pack_id = elim o [ none ↦ [] | some id ↦ id ];
}

-- The blobs of a table, with packs added at the end.
map-wider :
    (ps qs : List BlobId) (t : BlobType) (xs : List Item)
    → Within (length ps) xs
    → map (packed (ps ++ qs) t) xs ≡ map (packed ps t) xs
map-wider ps qs t [] h = refl
map-wider ps qs t (x ∷ xs) h =
    ap₂ (λ (p : PackedBlob) (rest : List PackedBlob). p ∷ rest)
      (ap (named t x) (get_elem?-append_left ps qs x.pack_index h.0)) (map-wider ps qs t xs h.1)

map-others :
    (idx1 idx2 : PackIndex) (t : BlobType) (xs : List Item)
    → map (packed (idx1.packs ++ idx2.packs) t) (map (shifted (length idx1.packs)) xs)
      ≡ map (packed idx2.packs t) xs
map-others idx1 idx2 t [] = refl
map-others idx1 idx2 t (x ∷ xs) =
    ap₂ (λ (p : PackedBlob) (rest : List PackedBlob). p ∷ rest) (sym (other_packed idx1 idx2 t x))
      (map-others idx1 idx2 t xs)

-- For two well-formed indexes, the second of them final, merge succeeds with a well-formed index,
-- which lists for each type the blobs of the first index in their order, followed by those of
-- the second one, in their order, each only if no blob before it has the same handle, place,
-- lengths and pack. So no blob is lost, and the blobs of the first index keep their positions.
pub merge-listing :
    (idx1 idx2 : PackIndex)
    → IsIndex idx1
    → IsIndex idx2
    → idx2.final ≡ true
    → (idx' : PackIndex) × (merge idx1 idx2 ≡ ok idx')
      × IsIndex idx'
      × (idx'.ids ≡ idx1.ids ++ idx2.ids)
      × ((t : BlobType)
          → t ≢ num_blob_types
          → listing idx' t ≡ union (listing idx1 t) (listing idx2 t))
merge-listing idx1 idx2 h1 h2 f =
    let (idx', made, valid, same_packs, same_ids, same_final, grown) =
      merge-absorbed idx1 idx2 h1 h2 f in
    (
      idx',
      made,
      valid,
      same_ids,
      λ t typed.
          ap₂ (λ (ps : List BlobId) (xs : List Item). map (packed ps t) xs) same_packs
            (grown t typed)
          ∙ map-absorbed (idx1.packs ++ idx2.packs) t (contents_of idx1.by_type t)
              (others idx1 idx2 t)
          ∙ ap₂ union
              (map-wider idx1.packs idx2.packs t (contents_of idx1.by_type t)
                (contents_of-Within idx1 t h1 typed))
              (map-others idx1 idx2 t (contents_of idx2.by_type t)),
    )
