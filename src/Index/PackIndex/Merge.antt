-- ===== src/Index/PackIndex/Merge.antt =====
-- merge adds the blobs of another index that are not there yet, with their packs.
use restic.Prelude.{
  ℕ, ◌+◌, ◌≡◌, ◌≢◌, ◌∙◌, refl, sym, ap, subst, Bool, true, false, not, List, [], ◌∷◌, ◌++◌,
  append-nil, map, if◌then◌else◌, arith, length, length-append, get_elem?-append_right, Option,
  none, some, Result, ok, err, ◌>>=◌, Bool-cases, inl, inr,
}
use restic.Blob.{
  BlobId, BlobType, invalid_blob, data_blob, tree_blob, num_blob_types, PackedBlob, type_eq,
  type_eq→eq, type_eq_refl,
}
use restic.Index.IndexMap.{IndexEntry}
use restic.Index.IndexMap.Chains.{Item, item, with_id}
use restic.Index.IndexMap.Prepare.{contents}
use restic.Index.IndexMap.Lookup.{foreach-contents}
use restic.Index.PackIndex.{
  ByType, PackIndex, IndexError, merge_not_final, lift_map, blob_types, to_packed_blob,
}
use restic.Index.PackIndex.Operations.{
  add_entry, some_equal, has_identical_entry, merge_entries, merge_types, merge,
}
use restic.Index.PackIndex.Tables.{
  table_items, contents_of, Within, IsTables, IsIndex, map_of-total, add_entry-contents,
}
use restic.Index.PackIndex.Store.{Within-le}
use restic.Index.PackIndex.Lookup.{packed, lookup-listing, to_packed_blob-packed}

-- An item of the other index, with its place among the packs of both.
abbrev pub shifted : ℕ → Item → Item
shifted n x = record x { pack_index = x.pack_index + n }

-- What merge leaves of a table: the items of before, and each new one at the end that no item
-- is equal to.
unfoldable pub absorbed : List BlobId → BlobType → List Item → List Item → List Item
absorbed packs t xs [] = xs
absorbed packs t xs (y ∷ ys) =
    absorbed packs t
      (if some_equal (packed packs t y) (map (packed packs t) (with_id y.id xs))
        then xs
        else xs ++ y ∷ [])
      ys

pub absorbed-step :
    (packs : List BlobId) (t : BlobType) (xs : List Item) (y : Item) (ys : List Item) (k : Bool)
    → some_equal (packed packs t y) (map (packed packs t) (with_id y.id xs)) ≡ k
    → absorbed packs t xs (y ∷ ys) ≡ absorbed packs t (if k then xs else xs ++ y ∷ []) ys
unfolding absorbed
absorbed-step packs t xs y ys k h =
    ap (λ (b : Bool). absorbed packs t (if b then xs else xs ++ y ∷ []) ys) h

module _ (idx1 idx2 : PackIndex) where
  abbrev pub packs : List BlobId
  packs = idx1.packs ++ idx2.packs

  -- The index during the merge.
  abbrev with_tables : ByType → PackIndex
  with_tables b = record idx1 { packs = packs; by_type = b }

  pub other_packed :
      (t : BlobType) (x : Item)
      → packed idx2.packs t x ≡ packed packs t (shifted (length idx1.packs) x)
  other_packed t x =
      ap
        (λ (o : Option BlobId). record {
          blob = record {
            handle = record { id = x.id; type = t };
            len = x.len;
            offset = x.offset;
            uncompressed = x.uncompressed;
          };
          pack_id = elim o as (λ _. BlobId) [ none ↦ [] | some id ↦ id ];
        })
        (sym (
          get_elem?-append_right idx1.packs idx2.packs (x.pack_index + length idx1.packs)
            x.pack_index (omega arith)))

  identical-lookup :
      (b : ByType) (t : BlobType) (y : Item)
      → IsIndex (with_tables b)
      → t ≢ num_blob_types
      → has_identical_entry (with_tables b) (packed packs t y)
        ≡ ok (some_equal (packed packs t y) (map (packed packs t) (with_id y.id (contents_of b t))))
  unfolding has_identical_entry
  identical-lookup b t y h typed =
      rw (lookup-listing (with_tables b) (record { id = y.id; type = t }) [] h typed) refl

  -- The tables after the items of one type were merged.
  abbrev Merged : ByType → BlobType → List Item → ByType → Type 0
  Merged b t ys tables =
      (s : BlobType)
      → contents_of tables s
        ≡ (if type_eq t s then absorbed packs t (contents_of b t) ys else contents_of b s)

  merge_entries_step :
      (idx idx' : PackIndex) (t : BlobType) (e : IndexEntry) (es : List IndexEntry)
      (b2 : PackedBlob) (identical : Bool)
      → to_packed_blob idx2.packs e t ≡ ok b2
      → has_identical_entry idx b2 ≡ ok identical
      → (if not identical
          then add_entry idx t e.id (e.pack_index + length idx1.packs) e.offset e.len e.uncompressed
          else ok idx)
        ≡ ok idx'
      → merge_entries idx idx2 (length idx1.packs) t (e ∷ es)
        ≡ merge_entries idx' idx2 (length idx1.packs) t es
  unfolding merge_entries
  merge_entries_step idx idx' t e es b2 identical p q r = rw (p, q, r) refl

  Merged-none : (b : ByType) (t : BlobType) → Merged b t [] b
  unfolding absorbed
  Merged-none b t s = elim (Bool-cases (type_eq t s)) [
    | inl e ↦ rw e (ap (contents_of b) (sym (type_eq→eq t s e)))
    | inr e ↦ rw e refl
  ]

  Merged-more :
      (b b' : ByType) (t : BlobType) (y : Item) (ys : List Item) (s : BlobType)
      → ((r : BlobType)
          → contents_of b' r ≡ contents_of b r ++ (if type_eq t r then y ∷ [] else []))
      → (if type_eq t s then absorbed packs t (contents_of b' t) ys else contents_of b' s)
        ≡ (if type_eq t s then absorbed packs t (contents_of b t ++ y ∷ []) ys else contents_of b s)
  Merged-more b b' t y ys s more = elim (Bool-cases (type_eq t s)) [
    | inl e ↦ rw e (
        ap (λ (xs : List Item). absorbed packs t xs ys)
          (more t
            ∙ ap (λ (k : Bool). contents_of b t ++ (if k then y ∷ [] else [])) (type_eq_refl t)))
    | inr e ↦ rw e (
        more s
        ∙ ap (λ (k : Bool). contents_of b s ++ (if k then y ∷ [] else [])) e
        ∙ append-nil (contents_of b s))
  ]

  merge_entries-contents :
      (b : ByType) (t : BlobType) (es : List IndexEntry)
      → IsTables (length packs) b
      → t ≢ num_blob_types
      → Within (length idx2.packs) (map item es)
      → (tables : ByType) × (merge_entries (with_tables b) idx2 (length idx1.packs) t es
          ≡ ok (with_tables tables))
        × IsTables (length packs) tables
        × Merged b t (map (shifted (length idx1.packs)) (map item es)) tables
  unfolding merge_entries absorbed
  merge_entries-contents b t [] h typed within = (b, refl, h, λ s. Merged-none b t s)
  merge_entries-contents b t (e ∷ es) h typed within =
      let y : Item = shifted (length idx1.packs) (item e) in
      let ys : List Item = map (shifted (length idx1.packs)) (map item es) in
      let b2 : to_packed_blob idx2.packs e t ≡ ok (packed packs t y) =
        to_packed_blob-packed idx2.packs e t within.0
        ∙ ap (λ (p : PackedBlob). ok p) (other_packed t (item e)) in
      let known = identical-lookup b t y h typed in
      let test : Bool =
        some_equal (packed packs t y) (map (packed packs t) (with_id y.id (contents_of b t))) in
      let step : (s : BlobType) (k : Bool)
          → test ≡ k
          → (if type_eq t s
              then absorbed packs t (if k then contents_of b t else contents_of b t ++ y ∷ []) ys
              else contents_of b s)
            ≡ (if type_eq t s
                then absorbed packs t (contents_of b t) (y ∷ ys)
                else contents_of b s) =
        λ s k h.
          ap (λ (zs : List Item). if type_eq t s then zs else contents_of b s)
            (sym (absorbed-step packs t (contents_of b t) y ys k h)) in
      elim (Bool-cases test) [
        | inl same ↦
            let (tables, made, valid, grown) = merge_entries-contents b t es h typed within.1 in
            (
              tables,
              merge_entries_step (with_tables b) (with_tables b) t e es (packed packs t y) test b2
                    known (rw same refl)
                  ∙ made,
              valid,
              λ s. grown s ∙ step s true same,
            )
        | inr new ↦
            let (b', added, h', more) =
              add_entry-contents (with_tables b) t y h
                (omega (arith, within.0, length-append idx1.packs idx2.packs)) typed in
            let (tables, made, valid, grown) = merge_entries-contents b' t es h' typed within.1 in
            (
              tables,
              merge_entries_step (with_tables b) (with_tables b') t e es (packed packs t y) test b2
                    known (rw new added)
                  ∙ made,
              valid,
              λ s. grown s ∙ Merged-more b b' t y ys s more ∙ step s false new,
            )
      ]

  -- The items of the other index, as merge adds them.
  abbrev pub others : BlobType → List Item
  others t = map (shifted (length idx1.packs)) (contents_of idx2.by_type t)

  merge_one :
      (b : ByType) (t : BlobType) (ts : List BlobType)
      → IsTables (length packs) b
      → IsIndex idx2
      → t ≢ num_blob_types
      → (tables : ByType) × (merge_types (with_tables b) idx2 (length idx1.packs) (t ∷ ts)
          ≡ merge_types (with_tables tables) idx2 (length idx1.packs) ts)
        × IsTables (length packs) tables
        × Merged b t (others t) tables
  unfolding merge_types lift_map contents_of
  merge_one b t ts h h2 typed =
      let (m2, e) = map_of-total idx2.by_type t typed in
      let (built, within) = h2 t m2 e in
      let (es, made, items) = foreach-contents m2 built in
      let within' = subst (Within (length idx2.packs)) (sym items) within in
      let (tables, merged, valid, grown) = merge_entries-contents b t es h typed within' in
      let same : map (shifted (length idx1.packs)) (map item es) ≡ others t =
        ap (map (shifted (length idx1.packs))) (items ∙ sym (ap table_items e)) in
      (tables, rw (e, made, merged) refl, valid, subst (λ ys. Merged b t ys tables) same grown)

  three-Merged :
      (b1 b2 b3 : ByType)
      → Merged idx1.by_type invalid_blob (others invalid_blob) b1
      → Merged b1 data_blob (others data_blob) b2
      → Merged b2 tree_blob (others tree_blob) b3
      → (t : BlobType) → t ≢ num_blob_types
      → contents_of b3 t ≡ absorbed packs t (contents_of idx1.by_type t) (others t)
  unfolding type_eq
  three-Merged b1 b2 b3 g1 g2 g3 invalid_blob typed =
      g3 invalid_blob ∙ g2 invalid_blob ∙ g1 invalid_blob
  three-Merged b1 b2 b3 g1 g2 g3 data_blob typed =
      g3 data_blob
      ∙ g2 data_blob
      ∙ ap (λ (xs : List Item). absorbed packs data_blob xs (others data_blob)) (g1 data_blob)
  three-Merged b1 b2 b3 g1 g2 g3 tree_blob typed =
      g3 tree_blob
      ∙ ap (λ (xs : List Item). absorbed packs tree_blob xs (others tree_blob))
          (g2 tree_blob ∙ g1 tree_blob)
  three-Merged b1 b2 b3 g1 g2 g3 num_blob_types typed = absurd (typed refl)

  wider : IsIndex idx1 → IsTables (length packs) idx1.by_type
  wider h t m e = (
    (h t m e).0,
    Within-le (length idx1.packs) (length packs) (contents m)
        (omega (arith, length-append idx1.packs idx2.packs)) (h t m e).1,
  )

  merge-final :
      (b : ByType)
      → idx2.final ≡ true
      → merge_types (with_tables idx1.by_type) idx2 (length idx1.packs) blob_types
        ≡ ok (with_tables b)
      → merge idx1 idx2 ≡ ok (record (with_tables b) { ids = idx1.ids ++ idx2.ids })
  unfolding merge
  merge-final b f e =
      ap
        (λ (k : Bool).
          if not k
          then err merge_not_final
          else (merge_types (with_tables idx1.by_type) idx2 (length idx1.packs) blob_types
              >>= λ (r : PackIndex). ok (record r { ids = r.ids ++ idx2.ids })))
        f
      ∙ ap
          (λ (r : Result IndexError PackIndex).
            r >>= λ (x : PackIndex). ok (record x { ids = x.ids ++ idx2.ids }))
          e

  -- For two well-formed indexes, the second of them final, merge succeeds. The result is well
  -- formed, has the packs and the IDs of both, and in the table of each type the items of the
  -- first index are followed by those of the second one that no earlier item equals.
  pub merge-absorbed :
      IsIndex idx1
      → IsIndex idx2
      → idx2.final ≡ true
      → (idx' : PackIndex) × (merge idx1 idx2 ≡ ok idx')
        × IsIndex idx'
        × (idx'.packs ≡ packs)
        × (idx'.ids ≡ idx1.ids ++ idx2.ids)
        × (idx'.final ≡ idx1.final)
        × ((t : BlobType)
            → t ≢ num_blob_types
            → contents_of idx'.by_type t ≡ absorbed packs t (contents_of idx1.by_type t) (others t))
  unfolding merge_types
  merge-absorbed h1 h2 f =
      let (b1, e1, v1, g1) =
        merge_one idx1.by_type invalid_blob (data_blob ∷ tree_blob ∷ []) (wider h1) h2
          (ground arith) in
      let (b2, e2, v2, g2) = merge_one b1 data_blob (tree_blob ∷ []) v1 h2 (ground arith) in
      let (b3, e3, v3, g3) = merge_one b2 tree_blob [] v2 h2 (ground arith) in
      (
        record (with_tables b3) { ids = idx1.ids ++ idx2.ids },
        merge-final b3 f (e1 ∙ e2 ∙ e3),
        v3,
        refl,
        refl,
        refl,
        λ t typed. three-Merged b1 b2 b3 g1 g2 g3 t typed,
      )
