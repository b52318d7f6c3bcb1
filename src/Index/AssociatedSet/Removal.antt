-- ===== src/Index/AssociatedSet/Removal.antt =====
-- Get after Delete.
use restic.Prelude.{
  ℕ, ◌≡◌, ◌≢◌, ◌∙◌, refl, sym, ap, Bool, false, Option, none, some, List, arith, if◌then◌else◌,
  length, get_elem?, set, length-set, get_elem?-set_self, get_elem?-set_ne, Bool-cases,
  Option-cases, inl, inr, ok,
}
use restic.Prelude.Maps.{lookup, delete, lookup-delete}
use restic.Blob.{num_blob_types, BlobHandle, handle_eq, handle_eq_iff, handle_key}
use restic.Index.PackIndex.{PackIndex}
use restic.Index.PackIndex.Tables.{IsIndex}
use restic.Index.AssociatedSet.{
  Sub, AssociatedSet, set_sub, read_at, read_flag, get, clear_at, delete_value,
}
use restic.Index.AssociatedSet.Slots.{slot-some, place, blob_index-place}
use restic.Index.AssociatedSet.MapLaws.{
  picked, sub_of-typed, slot_of, IsAssociated, get-picked, array-After,
}

module _ {ℓ} {T : Type ℓ} (first : PackIndex) (is : List PackIndex) (pending : List BlobHandle)
    (valid : IsIndex first) where
  delete_over :
      (a : AssociatedSet T) (bh : BlobHandle) (w : T)
      → lookup bh a.overflow ≡ some w
      → delete_value a bh ≡ ok (record a { overflow = delete bh a.overflow })
  unfolding delete_value
  delete_over a bh w e = rw (e, delete_value) refl

  delete_value-clear :
      (a : AssociatedSet T) (bh : BlobHandle)
      → IsAssociated first is pending valid a
      → bh.type ≢ num_blob_types
      → lookup bh a.overflow ≡ none
      → delete_value a bh
        ≡ ok (clear_at a bh (a.by_type bh.type) (slot_of first is pending valid a bh))
  unfolding delete_value
  delete_value-clear a bh h typed absent =
      rw
        (
          absent,
          delete_value,
          h.index,
          blob_index-place first is pending bh valid typed,
          sub_of-typed a bh.type typed,
        )
        refl

  -- A blob that is neither in the overflow map nor has a place is not in the set.
  get_nowhere :
      (a : AssociatedSet T) (bh : BlobHandle)
      → IsAssociated first is pending valid a
      → bh.type ≢ num_blob_types
      → lookup bh a.overflow ≡ none
      → slot_of first is pending valid a bh ≡ none
      → get a bh ≡ ok none
  unfolding read_at
  get_nowhere a bh h typed absent out =
      get-picked first is pending valid a bh h typed
      ∙ ap
          (λ (o : Option T).
            picked o (read_at (a.by_type bh.type) (slot_of first is pending valid a bh)))
          absent
      ∙ ap (read_at (a.by_type bh.type)) out

  delete-IsAssociated :
      (a : AssociatedSet T) (bh : BlobHandle)
      → IsAssociated first is pending valid a
      → IsAssociated first is pending valid (record a { overflow = delete bh a.overflow })
  delete-IsAssociated a bh h = record {
    index = h.index;
    lengths = h.lengths;
    fits = h.fits;
    separate = λ other w typed' found. elim (Bool-cases (handle_eq bh other)) [
      | inl e ↦ cc (found, lookup-delete bh other a.overflow, e)
      | inr e ↦ h.separate other w typed' (
          sym (
            lookup-delete bh other a.overflow
            ∙ ap (λ (k : Bool). if k then none else lookup other a.overflow) e)
          ∙ found)
    ];
  }

  -- Delete does not panic. After it Get finds no value for the blob, and for every other blob what
  -- it returned before.
  pub get-delete_value :
      (a : AssociatedSet T) (bh : BlobHandle)
      → IsAssociated first is pending valid a
      → bh.type ≢ num_blob_types
      → (a' : AssociatedSet T) × (delete_value a bh ≡ ok a')
        × IsAssociated first is pending valid a'
        × ((other : BlobHandle)
            → other.type ≢ num_blob_types
            → get a' other ≡ (if handle_eq bh other then ok none else get a other))
  unfolding clear_at read_at
  get-delete_value a bh h typed = elim (Option-cases (lookup bh a.overflow)) [
    | inr (w, e) ↦
        let a' : AssociatedSet T = record a { overflow = delete bh a.overflow } in
        let h' = delete-IsAssociated a bh h in
        let gone : lookup bh a'.overflow ≡ none =
          lookup-delete bh bh a.overflow ∙ ground (arith, handle_eq_iff bh bh) in
        (
          a',
          delete_over a bh w e,
          h',
          λ other typed'. elim (Bool-cases (handle_eq bh other)) [
            | inl d ↦ rw d (
                ap (get a') (sym ((handle_eq_iff bh other).0 d))
                ∙ get_nowhere a' bh h' typed gone (h.separate bh w typed e))
            | inr d ↦ rw d (
                get-picked first is pending valid a' other h' typed'
                ∙ ap
                    (λ (o : Option T).
                      picked o
                        (read_at (a.by_type other.type) (slot_of first is pending valid a other)))
                    (lookup-delete bh other a.overflow
                      ∙ ap (λ (k : Bool). if k then none else lookup other a.overflow) d)
                ∙ sym (get-picked first is pending valid a other h typed'))
          ],
        )
    | inl e ↦ elim (Option-cases (slot_of first is pending valid a bh)) [
      | inl out ↦ (
        a,
        delete_value-clear a bh h typed e
            ∙ ap (λ (o : Option ℕ). ok (clear_at a bh (a.by_type bh.type) o)) out,
        h,
        λ other typed'. elim (Bool-cases (handle_eq bh other)) [
          | inl d ↦
              rw d
                (ap (get a) (sym ((handle_eq_iff bh other).0 d)) ∙ get_nowhere a bh h typed e out)
          | inr d ↦ rw d refl
        ],
      )
      | inr (i, here) ↦
          let bt : Sub T = a.by_type bh.type in
          let bt' : Sub T = record bt { is_set = set bt.is_set i false } in
          let (mine, lt) = slot-some (length bt.value) (place first bh) i here in
          let own : read_at bt' (some i) ≡ ok none =
            ap (λ (o : Option Bool). read_flag o (get_elem? bt.value i))
              (get_elem?-set_self bt.is_set i false (omega (arith, h.lengths bh.type))) in
          let (valid', law) =
            array-After first is pending valid a bh i bt' h typed here refl
              (length-set bt.is_set i false ∙ h.lengths bh.type) (λ j ne. refl)
              (λ j ne. get_elem?-set_ne bt.is_set i j false ne) (ok none) e own in
          (
            set_sub a bh.type bt',
            delete_value-clear a bh h typed e
                ∙ ap (λ (o : Option ℕ). ok (clear_at a bh (a.by_type bh.type) o)) here,
            valid',
            law,
          )
    ]
  ]
