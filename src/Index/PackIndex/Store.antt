-- ===== src/Index/PackIndex/Store.antt =====
-- StorePack keeps the tables of the index well formed and adds each blob to the table of its type.
use restic.Prelude.{
  ℕ, ◌+◌, ◌-◌, ◌≤◌, ◌<◌, ◌≡◌, ◌≢◌, ◌∙◌, refl, sym, ap, subst, Bool, false, List, [], ◌∷◌, ◌++◌,
  append-nil, append_assoc, if◌then◌else◌, arith, length, length-append, All, Result, ok, err,
  ok-injective, inl,
}
use restic.Blob.{BlobId, BlobType, invalid_blob, data_blob, tree_blob, num_blob_types, Blob}
use restic.Index.IndexMap.{IndexMap, empty_map}
use restic.Index.IndexMap.Chains.{Item, items_below}
use restic.Index.IndexMap.Prepare.{IsMap, contents}
use restic.Index.PackIndex.{
  ByType, PackIndex, IndexError, store_in_final, map_of, new_index, add_to_packs,
}
use restic.Index.PackIndex.Operations.{store, store_all, store_pack}
use restic.Index.PackIndex.Tables.{
  table_items, contents_of, Within, IsTables, IsIndex, IsStorable, item_for, items_for,
  map_of-total, store-fits, add_entry-contents,
}

store-contents :
    (idx : PackIndex) (pack_index : ℕ) (b : Blob)
    → IsIndex idx
    → pack_index < length idx.packs
    → IsStorable b
    → (tables : ByType) × (store idx pack_index b ≡ ok (record idx { by_type = tables }))
      × IsTables (length idx.packs) tables
      × ((t : BlobType)
          → contents_of tables t ≡ contents_of idx.by_type t ++ items_for pack_index t (b ∷ []))
unfolding items_for
store-contents idx pack_index b h lt fits =
    let (tables, made, h', grown) =
      add_entry-contents idx b.type (item_for pack_index b) h lt fits.typed in
    (tables, store-fits idx pack_index b fits ∙ made, h', grown)

items_for-cons :
    (pack_index : ℕ) (t : BlobType) (b : Blob) (bs : List Blob)
    → items_for pack_index t (b ∷ bs) ≡ items_for pack_index t (b ∷ []) ++ items_for pack_index t bs
unfolding items_for
items_for-cons pack_index t b bs = ground arith

store_all-contents :
    (idx : PackIndex) (pack_index : ℕ) (bs : List Blob)
    → IsIndex idx
    → pack_index < length idx.packs
    → All IsStorable bs
    → (tables : ByType) × (store_all idx pack_index bs ≡ ok (record idx { by_type = tables }))
      × IsTables (length idx.packs) tables
      × ((t : BlobType)
          → contents_of tables t ≡ contents_of idx.by_type t ++ items_for pack_index t bs)
unfolding store_all items_for
store_all-contents idx pack_index [] h lt fits = (idx.by_type, refl, h, λ t. sym (append-nil _))
store_all-contents idx pack_index (b ∷ bs) h lt fits =
    let (tables, made, h', grown) = store-contents idx pack_index b h lt fits.0 in
    let idx' : PackIndex = record idx { by_type = tables } in
    let (tables', made', h'', grown') = store_all-contents idx' pack_index bs h' lt fits.1 in
    (
      tables',
      rw (made) made',
      h'',
      λ t.
          grown' t
          ∙ ap (λ (xs : List Item). xs ++ items_for pack_index t bs) (grown t)
          ∙ append_assoc (contents_of idx.by_type t) (items_for pack_index t (b ∷ []))
              (items_for pack_index t bs)
          ∙ ap (λ (xs : List Item). contents_of idx.by_type t ++ xs)
              (sym (items_for-cons pack_index t b bs)),
    )

pub Within-le : (n k : ℕ) (xs : List Item) → n ≤ k → Within n xs → Within k xs
Within-le n k [] h w = tt
Within-le n k (x ∷ xs) h w = (omega (arith, w.0), Within-le n k xs h w.1)

store_pack-open :
    (idx : PackIndex) (id : BlobId) (blobs : List Blob)
    → idx.final ≡ false
    → store_pack idx id blobs ≡ store_all (add_to_packs idx id).0 (add_to_packs idx id).1 blobs
unfolding store_pack
store_pack-open idx id blobs h =
    ap
      (λ (f : Bool).
        if f
        then err store_in_final
        else store_all (add_to_packs idx id).0 (add_to_packs idx id).1 blobs)
      h

-- On a well-formed index that is not final, StorePack succeeds for a pack whose blobs all have
-- a type and fit into 32 bits. The index stays well formed, its packs are those of before and
-- the new one, and to the items of each type are added, at the end and in their order, the
-- blobs of that type, with the place of the new pack.
pub store_pack-contents :
    (idx : PackIndex) (id : BlobId) (blobs : List Blob)
    → IsIndex idx
    → idx.final ≡ false
    → All IsStorable blobs
    → (idx' : PackIndex) × (store_pack idx id blobs ≡ ok idx')
      × IsIndex idx'
      × (idx'.packs ≡ idx.packs ++ id ∷ [])
      × ((t : BlobType)
          → contents_of idx'.by_type t
            ≡ contents_of idx.by_type t ++ items_for (length idx.packs) t blobs)
unfolding add_to_packs
store_pack-contents idx id blobs h open_yet fits =
    let packs : List BlobId = idx.packs ++ id ∷ [] in
    let wide : length packs ≡ length idx.packs + 1 = length-append idx.packs (id ∷ []) in
    let place : length packs - 1 ≡ length idx.packs = omega arith in
    let idx1 : PackIndex = record idx { packs = packs } in
    let h1 : IsIndex idx1 = λ t m e. (
      (h t m e).0,
      Within-le (length idx.packs) (length packs) (contents m) (omega arith) (h t m e).1,
    ) in
    let (tables, made, h', grown) =
      store_all-contents idx1 (length packs - 1) blobs h1 (omega arith) fits in
    (
      record idx1 { by_type = tables },
      store_pack-open idx id blobs open_yet ∙ made,
      h',
      refl,
      λ t. grown t ∙ ap (λ (k : ℕ). contents_of idx.by_type t ++ items_for k t blobs) place,
    )

empty-IsMap :
    (mh : BlobId → ℕ) (m : IndexMap)
    → ◌≡◌ {A = Result IndexError IndexMap} (ok (empty_map mh)) (ok m)
    → IsMap m × Within 0 (contents m)
unfolding IsMap items_below
empty-IsMap mh m h =
    subst (λ (x : IndexMap). IsMap x × Within 0 (contents x)) (ok-injective (empty_map mh) m h)
      (inl refl, tt)

-- The index that NewIndex returns is well formed.
pub new_index-IsIndex : (mhs : BlobType → BlobId → ℕ) (now : ℕ) → IsIndex (new_index mhs now)
unfolding new_index map_of
new_index-IsIndex mhs now invalid_blob m e = empty-IsMap (mhs invalid_blob) m e
new_index-IsIndex mhs now data_blob m e = empty-IsMap (mhs data_blob) m e
new_index-IsIndex mhs now tree_blob m e = empty-IsMap (mhs tree_blob) m e
new_index-IsIndex mhs now num_blob_types m e = cc

pub contents_of-Within :
    (idx : PackIndex) (t : BlobType)
    → IsIndex idx
    → t ≢ num_blob_types
    → Within (length idx.packs) (contents_of idx.by_type t)
unfolding contents_of
contents_of-Within idx t h typed =
    let (m, e) = map_of-total idx.by_type t typed in
    subst (Within (length idx.packs)) (sym (ap table_items e)) (h t m e).1

pub new_index-empty :
    (mhs : BlobType → BlobId → ℕ) (now : ℕ) (t : BlobType)
    → t ≢ num_blob_types
    → contents_of (new_index mhs now).by_type t ≡ []
unfolding contents_of new_index map_of items_below
new_index-empty mhs now invalid_blob typed = refl
new_index-empty mhs now data_blob typed = refl
new_index-empty mhs now tree_blob typed = refl
new_index-empty mhs now num_blob_types typed = absurd (typed refl)
