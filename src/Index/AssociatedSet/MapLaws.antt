-- ===== src/Index/AssociatedSet/MapLaws.antt =====
-- An AssociatedSet is a map: Get after Set and after Delete.
use restic.Prelude.{
  ℕ, suc, ◌≤◌, ◌≡◌, ◌≢◌, ◌∙◌, refl, sym, ap, ap₂, subst, Bool, true, false, Option, none, some,
  List, arith, leb, if◌then◌else◌, length, get_elem?, Bool-cases, Option-cases, inl, inr, Result,
  ok,
}
use restic.Prelude.Maps.{lookup, put, lookup-put}
use restic.Blob.{
  BlobId, BlobType, invalid_blob, data_blob, tree_blob, num_blob_types, BlobHandle, type_eq,
  type_eq→eq, type_eq_refl, handle_eq, handle_eq_iff, handle_key,
}
use restic.Index.PackIndex.{PackIndex, IndexError}
use restic.Index.PackIndex.Tables.{contents_of, IsIndex}
use restic.Index.IndexMap.Lookup.{position}
use restic.Index.MasterIndex.Merging.{starting_with}
use restic.Index.AssociatedSet.{
  Sub, AssociatedSet, sub_of, set_sub, slot, read_at, read_flag, get_in_arrays, get,
}
use restic.Index.AssociatedSet.Slots.{position-injective, slot-some, place, blob_index-place}

module _ {ℓ} {T : Type ℓ} where
  read_if :
      (bt bt' : Sub T) (j : ℕ) (b : Bool)
      → get_elem? bt'.value j ≡ get_elem? bt.value j
      → get_elem? bt'.is_set j ≡ get_elem? bt.is_set j
      → read_at bt' (if b then none else some j) ≡ read_at bt (if b then none else some j)
  unfolding read_at
  read_if bt bt' j true v f = refl
  read_if bt bt' j false v f = ap₂ read_flag f v

  -- A write at another place does not change what Get reads.
  read_at-other :
      (bt bt' : Sub T) (i : ℕ) (o : Option ℕ)
      → length bt'.value ≡ length bt.value
      → ((j : ℕ) → i ≢ j → get_elem? bt'.value j ≡ get_elem? bt.value j)
      → ((j : ℕ) → i ≢ j → get_elem? bt'.is_set j ≡ get_elem? bt.is_set j)
      → o ≢ some i
      → read_at bt' (slot (length bt'.value) o) ≡ read_at bt (slot (length bt.value) o)
  unfolding slot read_at
  read_at-other bt bt' i none same values flags other = refl
  read_at-other bt bt' i (some j) same values flags other =
      let ne : i ≢ j = λ e. other (ap (λ (k : ℕ). some k) (sym e)) in
      ap (λ (n : ℕ). read_at bt' (if leb n j then none else some j)) same
      ∙ read_if bt bt' j (leb (length bt.value) j) (values j ne) (flags j ne)

  abbrev pub picked : Option T → Result IndexError (Option T) → Result IndexError (Option T)
  picked none r = r
  picked (some v) r = ok (some v)

  pub sub_of-typed :
      (a : AssociatedSet T) (t : BlobType) → t ≢ num_blob_types → sub_of a t ≡ ok (a.by_type t)
  unfolding sub_of
  sub_of-typed a invalid_blob typed = refl
  sub_of-typed a data_blob typed = refl
  sub_of-typed a tree_blob typed = refl
  sub_of-typed a num_blob_types typed = absurd (typed refl)

module _ {ℓ} {T : Type ℓ} (first : PackIndex) (is : List PackIndex) (pending : List BlobHandle)
    (valid : IsIndex first) where
  -- The place in the arrays of the blob's type.
  abbrev pub slot_of : AssociatedSet T → BlobHandle → Option ℕ
  slot_of a bh = slot (length (a.by_type bh.type).value) (place first bh)

  -- The set belongs to the MasterIndex with this first index, the two arrays of a type are of one
  -- length, which is at most that of the table and one, the overflow map has no place in the arrays.
  pub record IsAssociated (a : AssociatedSet T) : Type ℓ where
    pub index : a.idx ≡ starting_with first is pending
    pub lengths : (t : BlobType) → length (a.by_type t).is_set ≡ length (a.by_type t).value
    pub fits :
        (t : BlobType)
        → t ≢ num_blob_types
        → length (a.by_type t).value ≤ suc (length (contents_of first.by_type t))
    pub separate :
        (bh : BlobHandle) (v : T)
        → bh.type ≢ num_blob_types
        → lookup bh a.overflow ≡ some v
        → slot_of a bh ≡ none

  pub get_in_arrays-read :
      (a : AssociatedSet T) (bh : BlobHandle)
      → IsAssociated a
      → bh.type ≢ num_blob_types
      → get_in_arrays a bh ≡ read_at (a.by_type bh.type) (slot_of a bh)
  unfolding get_in_arrays
  get_in_arrays-read a bh h typed =
      rw (h.index, blob_index-place first is pending bh valid typed, sub_of-typed a bh.type typed)
        refl

  pub get-picked :
      (a : AssociatedSet T) (bh : BlobHandle)
      → IsAssociated a
      → bh.type ≢ num_blob_types
      → get a bh ≡ picked (lookup bh a.overflow) (read_at (a.by_type bh.type) (slot_of a bh))
  unfolding get
  get-picked a bh h typed = elim (Option-cases (lookup bh a.overflow)) [
    | inl e ↦ rw (e, get) (get_in_arrays-read a bh h typed)
    | inr (v, e) ↦ rw (e, get) refl
  ]

  -- A value for a blob without a place goes to the overflow map.
  put-IsAssociated :
      (a : AssociatedSet T) (bh : BlobHandle) (v : T)
      → IsAssociated a
      → slot_of a bh ≡ none
      → IsAssociated (record a { overflow = put bh v a.overflow })
  put-IsAssociated a bh v h free = record {
    index = h.index;
    lengths = h.lengths;
    fits = h.fits;
    separate = λ other w typed' found. elim (Bool-cases (handle_eq bh other)) [
      | inl e ↦ subst (λ (b : BlobHandle). slot_of a b ≡ none) ((handle_eq_iff bh other).0 e) free
      | inr e ↦ h.separate other w typed' (
          sym (
            lookup-put bh other v a.overflow
            ∙ ap (λ (k : Bool). if k then some v else lookup other a.overflow) e)
          ∙ found)
    ];
  }

  -- What a set with the other set's places reads, where both have the entry.
  abbrev pub After :
      AssociatedSet T → BlobHandle → Result IndexError (Option T) → AssociatedSet T → Type ℓ
  After a bh result a' =
      IsAssociated a'
      × ((other : BlobHandle)
          → other.type ≢ num_blob_types
          → get a' other ≡ (if handle_eq bh other then result else get a other))

  pub get-put :
      (a : AssociatedSet T) (bh : BlobHandle) (v : T)
      → IsAssociated a
      → slot_of a bh ≡ none
      → After a bh (ok (some v)) (record a { overflow = put bh v a.overflow })
  get-put a bh v h free =
      let h' = put-IsAssociated a bh v h free in
      (
        h',
        λ other typed.
            get-picked (record a { overflow = put bh v a.overflow }) other h' typed
            ∙ ap (λ (o : Option T). picked o (read_at (a.by_type other.type) (slot_of a other)))
                (lookup-put bh other v a.overflow)
            ∙ elim (Bool-cases (handle_eq bh other)) [
              | inl e ↦ rw e refl
              | inr e ↦ rw e (sym (get-picked a other h typed))
            ],
      )

  module _ (a : AssociatedSet T) (bh : BlobHandle) (i : ℕ) (bt' : Sub T) (h : IsAssociated a)
      (typed : bh.type ≢ num_blob_types) (here : slot_of a bh ≡ some i)
      (same_value : length bt'.value ≡ length (a.by_type bh.type).value)
      (same_set : length bt'.is_set ≡ length (a.by_type bh.type).value)
      (values : (j : ℕ) → i ≢ j → get_elem? bt'.value j ≡ get_elem? (a.by_type bh.type).value j)
      (flags : (j : ℕ)
        → i ≢ j
        → get_elem? bt'.is_set j ≡ get_elem? (a.by_type bh.type).is_set j) where
    array_length :
        (t : BlobType)
        → length ((set_sub a bh.type bt').by_type t).value ≡ length (a.by_type t).value
    unfolding set_sub
    array_length t = elim (Bool-cases (type_eq bh.type t)) [
      | inl e ↦
          rw e (
            same_value ∙ ap (λ (s : BlobType). length (a.by_type s).value) (type_eq→eq bh.type t e))
      | inr e ↦ rw e refl
    ]

    array-IsAssociated : IsAssociated (set_sub a bh.type bt')
    unfolding set_sub
    array-IsAssociated = record {
      index = h.index;
      lengths = λ t. elim (Bool-cases (type_eq bh.type t)) [
        | inl e ↦ rw e (same_set ∙ sym same_value)
        | inr e ↦ rw e (h.lengths t)
      ];
      fits = λ t typed'. omega (arith, array_length t, h.fits t typed');
      separate = λ other w typed' found.
          ap (λ (n : ℕ). slot n (place first other)) (array_length other.type)
          ∙ h.separate other w typed' found;
    }

    -- Another blob of the type has another place.
    elsewhere :
        (other : BlobHandle)
        → handle_eq bh other ≡ false
        → bh.type ≡ other.type
        → place first other ≢ some i
    elsewhere other e same there =
        let (mine, lt) = slot-some (length (a.by_type bh.type).value) (place first bh) i here in
        let mine' : position bh.id (contents_of first.by_type other.type) 1 ≡ some i =
          subst (λ (t : BlobType). position bh.id (contents_of first.by_type t) 1 ≡ some i) same
            mine in
        let ids =
          position-injective bh.id other.id (contents_of first.by_type other.type) 1 i mine'
            there in
        let equal : bh ≡ other =
          ap₂ (λ (x : BlobId) (t : BlobType). record { id = x; type = t }) ids same in
        cc (e, (handle_eq_iff bh other).1 equal)

    array-read :
        (other : BlobHandle)
        → handle_eq bh other ≡ false
        → read_at
            ((set_sub a bh.type bt').by_type other.type)
            (slot_of (set_sub a bh.type bt') other)
          ≡ read_at (a.by_type other.type) (slot_of a other)
    unfolding set_sub
    array-read other e = elim (Bool-cases (type_eq bh.type other.type)) [
      | inr d ↦ rw d refl
      | inl d ↦
          let same = type_eq→eq bh.type other.type d in
          rw d (
            read_at-other (a.by_type bh.type) bt' i (place first other) same_value values flags
              (elsewhere other e same)
            ∙ ap
                (λ (t : BlobType).
                  read_at (a.by_type t) (slot (length (a.by_type t).value) (place first other)))
                same)
    ]

    array-own :
        read_at ((set_sub a bh.type bt').by_type bh.type) (slot_of (set_sub a bh.type bt') bh)
        ≡ read_at bt' (some i)
    unfolding set_sub
    array-own =
        rw (type_eq_refl bh.type)
          (ap (read_at bt') (ap (λ (n : ℕ). slot n (place first bh)) same_value ∙ here))

    pub array-After :
        (result : Result IndexError (Option T))
        → lookup bh a.overflow ≡ none
        → read_at bt' (some i) ≡ result
        → After a bh result (set_sub a bh.type bt')
    unfolding set_sub
    array-After result absent own =
        let h' = array-IsAssociated in
        let now : AssociatedSet T = set_sub a bh.type bt' in
        (
          h',
          λ other typed'. elim (Bool-cases (handle_eq bh other)) [
            | inl e ↦
                let at_bh : get now bh ≡ result =
                  get-picked now bh h' typed
                  ∙ ap (λ (o : Option T). picked o (read_at (now.by_type bh.type) (slot_of now bh)))
                      absent
                  ∙ array-own
                  ∙ own in
                rw e (ap (get now) (sym ((handle_eq_iff bh other).0 e)) ∙ at_bh)
            | inr e ↦ rw e (
                get-picked now other h' typed'
                ∙ ap (picked (lookup other a.overflow)) (array-read other e)
                ∙ sym (get-picked a other h typed'))
          ],
        )
