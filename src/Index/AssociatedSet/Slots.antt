-- ===== src/Index/AssociatedSet/Slots.antt =====
-- Different blobs of a type have different positions.
use restic.Prelude.{
  ℕ, suc, ◌+◌, ◌≤◌, ◌<◌, ◌≡◌, ◌≢◌, ◌⊎◌, ◌++◌, ◌∙◌, refl, sym, ap, Option, none, some, List, [], ◌∷◌,
  arith, length, Bool-cases, inl, inr, bytes_eq, bytes_eq_iff, ok,
}
use restic.Blob.{BlobId, num_blob_types, BlobHandle}
use restic.Index.IndexMap.Chains.{Item}
use restic.Index.IndexMap.Lookup.{position, first_index-contents}
use restic.Index.PackIndex.{PackIndex, lift_map}
use restic.Index.PackIndex.Operations
use restic.Index.PackIndex.Tables.{contents_of, IsIndex, map_of-total}
use restic.Index.MasterIndex.{blob_index}
use restic.Index.MasterIndex.Merging.{starting_with}
use restic.Index.AssociatedSet.{slot}

position-le : (id : BlobId) (xs : List Item) (i j : ℕ) → position id xs i ≡ some j → i ≤ j
unfolding position
position-le id [] i j h = cc
position-le id (x ∷ xs) i j h = ground (arith, position-le id xs (i + 1) j)

pub position-injective :
    (a b : BlobId) (xs : List Item) (i j : ℕ)
    → position a xs i ≡ some j
    → position b xs i ≡ some j
    → a ≡ b
unfolding position
position-injective a b [] i j h k = cc
position-injective a b (x ∷ xs) i j h k = ground (
  arith,
  bytes_eq_iff x.id a,
  bytes_eq_iff x.id b,
  position-le a xs (i + 1) j,
  position-le b xs (i + 1) j,
  position-injective a b xs (i + 1) j,
)

pub slot-some : (len : ℕ) (o : Option ℕ) (i : ℕ) → slot len o ≡ some i → (o ≡ some i) × (i < len)
unfolding slot
slot-some len none i h = cc
slot-some len (some j) i h = ground arith

position-append :
    (id : BlobId) (xs ys : List Item) (i : ℕ)
    → (position id (xs ++ ys) i ≡ position id xs i)
      ⊎ ((position id xs i ≡ none) × (position id (xs ++ ys) i ≡ position id ys (i + length xs)))
unfolding position
position-append id [] ys i = inr (refl, ap (position id ys) (omega arith))
position-append id (x ∷ xs) ys i = elim (Bool-cases (bytes_eq x.id id)) [
  | inl e ↦ inl (rw e refl)
  | inr e ↦ elim (position-append id xs ys (i + 1)) [
    | inl same ↦ inl (rw e same)
    | inr (out, later) ↦ inr (rw e out, rw e (later ∙ ap (position id ys) (omega arith)))
  ]
]

slot-out : (len i : ℕ) (o : Option ℕ) → ((j : ℕ) → o ≡ some j → i ≤ j) → len ≤ i → slot len o ≡ none
unfolding slot
slot-out len i none late le = refl
slot-out len i (some j) late le = let h : i ≤ j = late j refl in ground arith

-- Items that are added behind those of before change no place within the arrays.
pub slot-append :
    (len : ℕ) (id : BlobId) (xs ys : List Item)
    → len ≤ suc (length xs)
    → slot len (position id (xs ++ ys) 1) ≡ slot len (position id xs 1)
unfolding slot
slot-append len id xs ys le = elim (position-append id xs ys 1) [
  | inl same ↦ ap (slot len) same
  | inr (out, later) ↦
      ap (slot len) later
      ∙ slot-out len (1 + length xs) (position id ys (1 + length xs))
          (λ j h. position-le id ys (1 + length xs) j h) (omega arith)
      ∙ sym (ap (slot len) out)
]

-- The position of a blob in the first index, counted from 1.
abbrev pub place : PackIndex → BlobHandle → Option ℕ
place first bh = position bh.id (contents_of first.by_type bh.type) 1

pub blob_index-place :
    (first : PackIndex) (is : List PackIndex) (pending : List BlobHandle) (bh : BlobHandle)
    → IsIndex first
    → bh.type ≢ num_blob_types
    → blob_index (starting_with first is pending) bh ≡ ok (place first bh)
unfolding blob_index contents_of lift_map Operations.blob_index
blob_index-place first is pending bh h typed =
    let (m, e) = map_of-total first.by_type bh.type typed in
    let (built, within) = h bh.type m e in
    rw e (ap (lift_map {A = Option ℕ}) (first_index-contents m bh.id built))
