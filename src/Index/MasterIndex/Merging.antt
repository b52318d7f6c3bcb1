-- ===== src/Index/MasterIndex/Merging.antt =====
-- MergeFinalIndexes keeps every blob, and the positions of those in the first index.
use restic.Prelude.{
  ℕ, ◌≡◌, ◌≢◌, ◌∙◌, refl, sym, ap, subst, Bool, true, false, ◌||◌, List, [], ◌∷◌, ◌++◌, append-nil,
  append_assoc, map, arith, if◌then◌else◌, length, All, Result, ok, ◌>>=◌, Bool-cases, inl, inr,
  bytes_eq, bytes_eq_iff,
}
use restic.Blob.{BlobId, BlobType, num_blob_types, BlobHandle, PackedBlob, handle_key}
use restic.Sets
use restic.Index.IndexMap.Chains.{Item, with_id}
use restic.Index.IndexMap.Walks.{first_of}
use restic.Index.PackIndex.{PackIndex, IndexError, ids_of}
use restic.Index.PackIndex.Operations
use restic.Index.PackIndex.Operations.{some_equal}
use restic.Index.PackIndex.Tables.{contents_of, IsIndex}
use restic.Index.PackIndex.Lookup.{packed}
use restic.Index.PackIndex.Merge.{shifted, absorbed, absorbed-step, others, merge-absorbed}
use restic.Index.MasterIndex.{MasterIndex, has, stays, merge_loop, merge_all, merge_final_indexes}
use restic.Index.MasterIndex.Known.{
  some_id, some_id-append, some_id-newest, present, listed, listed_in, known, IsMaster, has-known,
}

-- A MasterIndex with a first index.
abbrev pub starting_with : PackIndex → List PackIndex → List BlobHandle → MasterIndex
starting_with first is pending = record { idx = first ∷ is; pending_blobs = pending }

some_id-shifted :
    (id : BlobId) (n : ℕ) (xs : List Item) → some_id id (map (shifted n) xs) ≡ some_id id xs
unfolding some_id
some_id-shifted id n [] = refl
some_id-shifted id n (x ∷ xs) = ap (λ (k : Bool). bytes_eq x.id id || k) (some_id-shifted id n xs)

covered :
    (id other : BlobId) (xs ys : List Item)
    → some_id other xs ≡ true
    → (some_id id xs || some_id id ys) ≡ (some_id id xs || (bytes_eq other id || some_id id ys))
covered id other xs ys h = elim (Bool-cases (bytes_eq other id)) [
  | inr e ↦ rw e refl
  | inl e ↦
      let there : some_id id xs ≡ true =
        ap (λ (k : BlobId). some_id k xs) (sym ((bytes_eq_iff other id).0 e)) ∙ h in
      rw there refl
]

stays-final : (i : PackIndex) → stays i ≡ false → i.final ≡ true
unfolding stays ids_of
stays-final i h = ground arith

some_equal-present :
    (p : PackedBlob) (all : List BlobId) (t : BlobType) (xs : List Item)
    → some_equal p (map (packed all t) xs) ≡ true
    → present (first_of xs) ≡ true
unfolding some_equal
some_equal-present p all t [] h = h
some_equal-present p all t (x ∷ xs) h = refl

some_id-absorbed :
    (all : List BlobId) (t : BlobType) (id : BlobId) (xs ys : List Item)
    → some_id id (absorbed all t xs ys) ≡ (some_id id xs || some_id id ys)
unfolding absorbed some_id
some_id-absorbed all t id xs [] = ground arith
some_id-absorbed all t id xs (y ∷ ys) =
    elim (Bool-cases (some_equal (packed all t y) (map (packed all t) (with_id y.id xs)))) [
      | inl e ↦
          let there =
            sym (some_id-newest y.id xs [])
            ∙ some_equal-present (packed all t y) all t (with_id y.id xs) e in
          ap (some_id id) (absorbed-step all t xs y ys true e)
          ∙ some_id-absorbed all t id xs ys
          ∙ covered id y.id xs ys there
      | inr e ↦
          ap (some_id id) (absorbed-step all t xs y ys false e)
          ∙ some_id-absorbed all t id (xs ++ y ∷ []) ys
          ∙ ground (arith, some_id-append id xs (y ∷ []))
    ]

abbrev Extends : List Item → List Item → Type 0
Extends xs zs = (added : List Item) × (zs ≡ xs ++ added)

Extends-trans : (xs ys zs : List Item) → Extends xs ys → Extends ys zs → Extends xs zs
Extends-trans xs ys zs (a, e) (b, f) =
    (a ++ b, f ∙ ap (λ (l : List Item). l ++ b) e ∙ append_assoc xs a b)

absorbed-Extends :
    (all : List BlobId) (t : BlobType) (xs ys : List Item) → Extends xs (absorbed all t xs ys)
unfolding absorbed
absorbed-Extends all t xs [] = ([], sym (append-nil xs))
absorbed-Extends all t xs (y ∷ ys) =
    elim (Bool-cases (some_equal (packed all t y) (map (packed all t) (with_id y.id xs)))) [
      | inl e ↦
          let (added, f) = absorbed-Extends all t xs ys in
          (added, absorbed-step all t xs y ys true e ∙ f)
      | inr e ↦
          let (added, f) = absorbed-Extends all t (xs ++ y ∷ []) ys in
          (y ∷ added, absorbed-step all t xs y ys false e ∙ f ∙ append_assoc xs (y ∷ []) added)
    ]

merge-listed :
    (first i : PackIndex)
    → IsIndex first
    → IsIndex i
    → i.final ≡ true
    → (first' : PackIndex) × (Operations.merge first i ≡ ok first')
      × IsIndex first'
      × ((bh : BlobHandle)
          → bh.type ≢ num_blob_types
          → listed bh first' ≡ (listed bh first || listed bh i))
      × ((t : BlobType)
          → t ≢ num_blob_types
          → Extends (contents_of first.by_type t) (contents_of first'.by_type t))
merge-listed first i h k f =
    let (first', made, valid, same_packs, same_ids, same_final, grown) =
      merge-absorbed first i h k f in
    (
      first',
      made,
      valid,
      λ bh typed.
          ap (some_id bh.id) (grown bh.type typed)
          ∙ some_id-absorbed (first.packs ++ i.packs) bh.type bh.id
              (contents_of first.by_type bh.type) (others first i bh.type)
          ∙ ap (λ (b : Bool). listed bh first || b)
              (some_id-shifted bh.id (length first.packs) (contents_of i.by_type bh.type)),
      λ t typed. subst (Extends (contents_of first.by_type t)) (sym (grown t typed)) (
          absorbed-Extends (first.packs ++ i.packs) t (contents_of first.by_type t)
            (others first i t)),
    )

-- The result of the loop: it ends without an error, and no blob is lost or added.
abbrev Collected :
    PackIndex → List PackIndex → Result IndexError (PackIndex × List PackIndex) → Type 0
Collected first is made =
    (first' : PackIndex) × (rest : List PackIndex) × (made ≡ ok (first', rest))
    × IsIndex first'
    × All (IsIndex) rest
    × All (λ i. stays i ≡ true) rest
    × ((bh : BlobHandle)
        → bh.type ≢ num_blob_types
        → (listed bh first' || listed_in bh rest) ≡ (listed bh first || listed_in bh is))
    × ((t : BlobType)
        → t ≢ num_blob_types
        → Extends (contents_of first.by_type t) (contents_of first'.by_type t))

merge_at :
    (first i : PackIndex) (is : List PackIndex) (k : Bool)
    → stays i ≡ k
    → merge_loop first (i ∷ is) ≡ (
        if k
        then (merge_loop first is >>= λ r. ok (r.0, i ∷ r.1))
        else (Operations.merge first i >>= λ first'. merge_loop first' is))
unfolding merge_loop
merge_at first i is k e =
    ap
      (λ (b : Bool).
        if b
        then (merge_loop first is >>= λ (r : PackIndex × List PackIndex). ok (r.0, i ∷ r.1))
        else (Operations.merge first i >>= λ first'. merge_loop first' is))
      e

merge_loop-Collected :
    (first : PackIndex) (is : List PackIndex)
    → IsIndex first
    → All (IsIndex) is
    → Collected first is (merge_loop first is)
unfolding merge_loop listed_in
merge_loop-Collected first [] h k =
    (first, [], refl, h, tt, tt, λ bh typed. refl, λ t typed. ([], sym (append-nil _)))
merge_loop-Collected first (i ∷ is) h k = elim (Bool-cases (stays i)) [
  | inl e ↦
      let (first', rest, made, valid, valids, left, same, more) =
        merge_loop-Collected first is h k.1 in
      (
        first',
        i ∷ rest,
        merge_at first i is true e ∙ rw made refl,
        valid,
        (k.0, valids),
        (e, left),
        λ bh typed. ground (arith, same bh typed),
        more,
      )
  | inr e ↦
      let (first1, made1, valid1, same1, more1) = merge-listed first i h k.0 (stays-final i e) in
      let (first', rest, made, valid, valids, left, same, more) =
        merge_loop-Collected first1 is valid1 k.1 in
      (
        first',
        rest,
        merge_at first i is false e ∙ rw made1 made,
        valid,
        valids,
        left,
        λ bh typed. ground (arith, same bh typed, same1 bh typed),
        λ t typed.
            Extends-trans (contents_of first.by_type t) (contents_of first1.by_type t)
              (contents_of first'.by_type t) (more1 t typed) (more t typed),
      )
]

-- On well-formed indexes, MergeFinalIndexes succeeds. Has knows the same blobs as before; the
-- items of the first index stay where they are, in front of what is merged in; and only indexes
-- that are not final or have no ID are left beside it.
pub merge_final_indexes-known :
    (first : PackIndex) (is : List PackIndex) (pending : List BlobHandle)
    → IsMaster (starting_with first is pending)
    → (first' : PackIndex) × (rest : List PackIndex) × (merge_final_indexes
          (starting_with first is pending)
        ≡ ok (starting_with first' rest pending))
      × IsMaster (starting_with first' rest pending)
      × All (λ i. stays i ≡ true) rest
      × ((other : BlobHandle)
          → other.type ≢ num_blob_types
          → has (starting_with first' rest pending) other
            ≡ ok (known other (starting_with first is pending)))
      × ((t : BlobType)
          → t ≢ num_blob_types
          → (added : List Item) × (contents_of first'.by_type t
              ≡ contents_of first.by_type t ++ added))
unfolding merge_final_indexes merge_all listed_in
merge_final_indexes-known first is pending h =
    let (first', rest, made, valid, valids, left, same, more) =
      merge_loop-Collected first is h.0 h.1 in
    (
      first',
      rest,
      rw made refl,
      (valid, valids),
      left,
      λ other typed.
          has-known (starting_with first' rest pending) other (valid, valids) typed
          ∙ ap (λ (k : Bool). ok (Sets.has other pending || k)) (same other typed),
      more,
    )
