-- ===== src/Index/AssociatedSet/Updates.antt =====
-- Get after Set.
use restic.Prelude.{
  ℕ, ◌≡◌, ◌≢◌, ◌∙◌, refl, ap, ap₂, true, Option, none, some, List, arith, if◌then◌else◌, length,
  set, length-set, get_elem?-set_self, get_elem?-set_ne, Option-cases, inl, inr, ok,
}
use restic.Prelude.Maps.{lookup, put}
use restic.Blob.{num_blob_types, BlobHandle, handle_eq, handle_key}
use restic.Index.PackIndex.{PackIndex}
use restic.Index.PackIndex.Tables.{IsIndex}
use restic.Index.AssociatedSet.{
  Sub, AssociatedSet, set_sub, read_at, read_flag, get, write_at, set_value,
}
use restic.Index.AssociatedSet.Slots.{slot-some, place, blob_index-place}
use restic.Index.AssociatedSet.MapLaws.{sub_of-typed, slot_of, IsAssociated, get-put, array-After}

module _ {ℓ} {T : Type ℓ} (first : PackIndex) (is : List PackIndex) (pending : List BlobHandle)
    (valid : IsIndex first) where
  set_value-write :
      (a : AssociatedSet T) (bh : BlobHandle) (v : T)
      → IsAssociated first is pending valid a
      → bh.type ≢ num_blob_types
      → lookup bh a.overflow ≡ none
      → set_value a bh v
        ≡ ok (write_at a bh v (a.by_type bh.type) (slot_of first is pending valid a bh))
  unfolding set_value
  set_value-write a bh v h typed absent =
      rw
        (
          absent,
          set_value,
          h.index,
          blob_index-place first is pending bh valid typed,
          sub_of-typed a bh.type typed,
        )
        refl

  set_over :
      (a : AssociatedSet T) (bh : BlobHandle) (v w : T)
      → lookup bh a.overflow ≡ some w
      → set_value a bh v ≡ ok (record a { overflow = put bh v a.overflow })
  unfolding set_value
  set_over a bh v w e = rw (e, set_value) refl

  -- Set does not panic. After it Get returns the new value for the blob, and for every other blob
  -- what it returned before, whether they are kept in the arrays or in the overflow map.
  pub get-set_value :
      (a : AssociatedSet T) (bh : BlobHandle) (v : T)
      → IsAssociated first is pending valid a
      → bh.type ≢ num_blob_types
      → (a' : AssociatedSet T) × (set_value a bh v ≡ ok a')
        × IsAssociated first is pending valid a'
        × ((other : BlobHandle)
            → other.type ≢ num_blob_types
            → get a' other ≡ (if handle_eq bh other then ok (some v) else get a other))
  unfolding write_at read_at
  get-set_value a bh v h typed = elim (Option-cases (lookup bh a.overflow)) [
    | inr (w, e) ↦
        let (valid', law) = get-put first is pending valid a bh v h (h.separate bh w typed e) in
        (record a { overflow = put bh v a.overflow }, set_over a bh v w e, valid', law)
    | inl e ↦ elim (Option-cases (slot_of first is pending valid a bh)) [
      | inl out ↦
          let (valid', law) = get-put first is pending valid a bh v h out in
          (
            record a { overflow = put bh v a.overflow },
            set_value-write a bh v h typed e
                ∙ ap (λ (o : Option ℕ). ok (write_at a bh v (a.by_type bh.type) o)) out,
            valid',
            law,
          )
      | inr (i, here) ↦
          let bt : Sub T = a.by_type bh.type in
          let bt' : Sub T = record { value = set bt.value i v; is_set = set bt.is_set i true } in
          let (mine, lt) = slot-some (length bt.value) (place first bh) i here in
          let own : read_at bt' (some i) ≡ ok (some v) =
            ap₂ read_flag (get_elem?-set_self bt.is_set i true (omega (arith, h.lengths bh.type)))
              (get_elem?-set_self bt.value i v lt) in
          let (valid', law) =
            array-After first is pending valid a bh i bt' h typed here (length-set bt.value i v)
              (length-set bt.is_set i true ∙ h.lengths bh.type)
              (λ j ne. get_elem?-set_ne bt.value i j v ne)
              (λ j ne. get_elem?-set_ne bt.is_set i j true ne) (ok (some v)) e own in
          (
            set_sub a bh.type bt',
            set_value-write a bh v h typed e
                ∙ ap (λ (o : Option ℕ). ok (write_at a bh v (a.by_type bh.type) o)) here,
            valid',
            law,
          )
    ]
  ]
