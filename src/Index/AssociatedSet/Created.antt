-- ===== src/Index/AssociatedSet/Created.antt =====
-- Get after NewAssociatedSet.
use restic.Prelude.{
  ℕ, suc, ◌+◌, ◌≤◌, ◌≡◌, ◌≢◌, ◌∙◌, refl, sym, ap, Bool, false, Option, none, some, List, [], arith,
  length, get_elem?, replicate, leb, length-replicate, get_elem?-replicate, Bool-cases, inl, inr,
  Result, ok,
}
use restic.Prelude.Maps.{lookup}
use restic.Blob.{
  BlobType, invalid_blob, data_blob, tree_blob, num_blob_types, BlobHandle, handle_key,
}
use restic.Index.PackIndex.{PackIndex, IndexError, map_of, len}
use restic.Index.PackIndex.Tables.{contents_of, table_items, IsIndex, map_of-total}
use restic.Index.IndexMap.{IndexMap}
use restic.Index.IndexMap.Lookup.{length-contents}
use restic.Index.MasterIndex.{stable_len}
use restic.Index.MasterIndex.Merging.{starting_with}
use restic.Index.AssociatedSet.{
  Sub, AssociatedSet, slot, read_at, read_flag, get, new_associated_set, new_by_type, zero_sub,
  empty_sub,
}
use restic.Index.AssociatedSet.Slots.{place}
use restic.Index.AssociatedSet.MapLaws.{IsAssociated, get-picked}

numentries-length :
    (first : PackIndex) (m : IndexMap) (t : BlobType)
    → IsIndex first
    → map_of first.by_type t ≡ ok m
    → m.numentries ≡ length (contents_of first.by_type t)
unfolding contents_of
numentries-length first m t valid e =
    sym (length-contents m (valid t m e).0)
    ∙ ap (λ (r : Result IndexError IndexMap). length (table_items r)) (sym e)

module _ {ℓ} {T : Type ℓ} (first : PackIndex) (is : List PackIndex) (pending : List BlobHandle)
    (valid : IsIndex first) where
  zero_sub-read :
      (zero_value : T) (n : ℕ) (o : Option ℕ)
      → read_at (zero_sub zero_value n) (slot (length (zero_sub zero_value n).value) o) ≡ ok none
  unfolding zero_sub read_at slot
  zero_sub-read zero_value n none = refl
  zero_sub-read zero_value n (some i) =
      ap (λ (k : ℕ). read_at (zero_sub zero_value n) (slot k (some i)))
        (length-replicate n zero_value)
      ∙ elim (Bool-cases (leb n i)) [
        | inl e ↦ rw e refl
        | inr e ↦ rw e (
            ap (λ (o : Option Bool). read_flag o (get_elem? (replicate n zero_value) i))
              (get_elem?-replicate n i false (ground arith)))
      ]

  zero_sub-lengths :
      (zero_value : T) (n : ℕ)
      → length (zero_sub zero_value n).is_set ≡ length (zero_sub zero_value n).value
  unfolding zero_sub
  zero_sub-lengths zero_value n = length-replicate n false ∙ sym (length-replicate n zero_value)

  new_by_type-lengths :
      (zero_value : T) (datas trees : ℕ) (t : BlobType)
      → length (new_by_type zero_value datas trees t).is_set
        ≡ length (new_by_type zero_value datas trees t).value
  unfolding new_by_type empty_sub
  new_by_type-lengths zero_value datas trees invalid_blob = refl
  new_by_type-lengths zero_value datas trees data_blob = zero_sub-lengths zero_value (datas + 1)
  new_by_type-lengths zero_value datas trees tree_blob = zero_sub-lengths zero_value (trees + 1)
  new_by_type-lengths zero_value datas trees num_blob_types = refl

  new_by_type-read :
      (zero_value : T) (datas trees : ℕ) (t : BlobType) (o : Option ℕ)
      → read_at
          (new_by_type zero_value datas trees t)
          (slot (length (new_by_type zero_value datas trees t).value) o)
        ≡ ok none
  unfolding new_by_type empty_sub read_at slot
  new_by_type-read zero_value datas trees data_blob o = zero_sub-read zero_value (datas + 1) o
  new_by_type-read zero_value datas trees tree_blob o = zero_sub-read zero_value (trees + 1) o
  new_by_type-read zero_value datas trees invalid_blob none = refl
  new_by_type-read zero_value datas trees invalid_blob (some i) = ground arith
  new_by_type-read zero_value datas trees num_blob_types none = refl
  new_by_type-read zero_value datas trees num_blob_types (some i) = ground arith

  new_by_type-fits :
      (zero_value : T) (datas trees : ℕ)
      → datas ≡ length (contents_of first.by_type data_blob)
      → trees ≡ length (contents_of first.by_type tree_blob)
      → (t : BlobType) → t ≢ num_blob_types
      → length (new_by_type zero_value datas trees t).value
        ≤ suc (length (contents_of first.by_type t))
  unfolding new_by_type empty_sub zero_sub
  new_by_type-fits zero_value datas trees d e invalid_blob typed = omega arith
  new_by_type-fits zero_value datas trees d e data_blob typed =
      omega (arith, length-replicate (datas + 1) zero_value)
  new_by_type-fits zero_value datas trees d e tree_blob typed =
      omega (arith, length-replicate (trees + 1) zero_value)
  new_by_type-fits zero_value datas trees d e num_blob_types typed = absurd (typed refl)

  -- NewAssociatedSet makes a set that belongs to its MasterIndex, and in which Get finds no value.
  pub get-new_associated_set :
      (zero_value : T)
      → (a : AssociatedSet T) × (new_associated_set zero_value (starting_with first is pending)
          ≡ ok a)
        × IsAssociated first is pending valid a
        × ((other : BlobHandle) → other.type ≢ num_blob_types → get a other ≡ ok none)
  unfolding new_associated_set stable_len len lookup
  get-new_associated_set zero_value =
      let (datas, e) = map_of-total first.by_type data_blob (ground arith) in
      let (trees, f) = map_of-total first.by_type tree_blob (ground arith) in
      let by_type : BlobType → Sub T = new_by_type zero_value datas.numentries trees.numentries in
      let a : AssociatedSet T = record {
        by_type = by_type;
        overflow = [];
        idx = starting_with first is pending;
      } in
      let h : IsAssociated first is pending valid a = record {
        index = refl;
        lengths = new_by_type-lengths zero_value datas.numentries trees.numentries;
        fits =
            new_by_type-fits zero_value datas.numentries trees.numentries
              (numentries-length first datas data_blob valid e)
              (numentries-length first trees tree_blob valid f);
        separate = λ bh v typed found. cc found;
      } in
      (
        a,
        rw (e, f) refl,
        h,
        λ other typed.
            get-picked first is pending valid a other h typed
            ∙ new_by_type-read zero_value datas.numentries trees.numentries other.type
                (place first other),
      )
