-- ===== src/Index/AssociatedSet/Stable.antt =====
-- The blobs' places do not change when MergeFinalIndexes adds to the first index.
use restic.Prelude.{ℕ, ◌≡◌, ◌≢◌, ◌∙◌, refl, sym, ap, Option, List, arith, length, length-append, ok}
use restic.Prelude.Maps.{lookup}
use restic.Blob.{num_blob_types, BlobHandle, handle_key}
use restic.Index.PackIndex.{PackIndex}
use restic.Index.PackIndex.Tables.{contents_of, IsIndex}
use restic.Index.IndexMap.Chains.{Item}
use restic.Index.IndexMap.Lookup.{position}
use restic.Index.MasterIndex.{MasterIndex, merge_final_indexes}
use restic.Index.MasterIndex.Known.{IsMaster}
use restic.Index.MasterIndex.Merging.{starting_with, merge_final_indexes-known}
use restic.Index.AssociatedSet.{AssociatedSet, slot, read_at, get}
use restic.Index.AssociatedSet.Slots.{slot-append}
use restic.Index.AssociatedSet.MapLaws.{picked, slot_of, IsAssociated, get-picked}

module _ {ℓ} {T : Type ℓ} (first : PackIndex) (is : List PackIndex)
    (pending : List BlobHandle) where
  -- MergeFinalIndexes does not disturb an AssociatedSet of its MasterIndex: Get returns for every
  -- blob what it returned before the merge, also for those that the merge adds to the first index.
  pub get-merge_final_indexes :
      (a : AssociatedSet T) (master : IsMaster (starting_with first is pending))
      → IsAssociated first is pending master.0 a
      → (mi' : MasterIndex) × (merge_final_indexes (starting_with first is pending) ≡ ok mi')
        × (first' : PackIndex) × (rest : List PackIndex) × (valid : IsIndex first') × IsAssociated
            first' rest pending valid
            (record a { idx = mi' })
        × ((other : BlobHandle)
            → other.type ≢ num_blob_types
            → get (record a { idx = mi' }) other ≡ get a other)
  get-merge_final_indexes a master h =
      let (first', rest, made, valid, left, same, more) =
        merge_final_indexes-known first is pending master in
      let a' : AssociatedSet T = record a { idx = starting_with first' rest pending } in
      let same_slot : (other : BlobHandle)
          → other.type ≢ num_blob_types
          → slot_of first' rest pending valid.0 a' other
            ≡ slot_of first is pending master.0 a other =
        λ other typed.
          ap
            (λ (xs : List Item).
              slot (length (a.by_type other.type).value) (position other.id xs 1))
            (more other.type typed).1
          ∙ slot-append (length (a.by_type other.type).value) other.id
              (contents_of first.by_type other.type) (more other.type typed).0
              (h.fits other.type typed) in
      let h' : IsAssociated first' rest pending valid.0 a' = record {
        index = refl;
        lengths = h.lengths;
        fits = λ t typed. omega (
          arith,
          h.fits t typed,
          ap (λ (xs : List Item). length xs) (more t typed).1,
          length-append (contents_of first.by_type t) (more t typed).0,
        );
        separate = λ other w typed found. same_slot other typed ∙ h.separate other w typed found;
      } in
      (
        starting_with first' rest pending,
        made,
        first',
        rest,
        valid.0,
        h',
        λ other typed.
            get-picked first' rest pending valid.0 a' other h' typed
            ∙ ap
                (λ (o : Option ℕ).
                  picked (lookup other a.overflow) (read_at (a.by_type other.type) o))
                (same_slot other typed)
            ∙ sym (get-picked first is pending master.0 a other h typed),
      )
