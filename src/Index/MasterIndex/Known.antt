-- ===== src/Index/MasterIndex/Known.antt =====
-- Which blobs a MasterIndex knows: what AddPending and StorePack do to it.
use restic.Prelude.{
  ◌≡◌, ◌≢◌, ◌∙◌, refl, sym, ap, Bool, true, false, not, ◌||◌, Option, none, some, List, [], ◌∷◌,
  ◌++◌, arith, if◌then◌else◌, All, Result, ok, Bool-cases, inl, inr, bytes_eq,
}
use restic.Blob.{BlobId, num_blob_types, BlobHandle, Blob, handle_eq, handle_eq_iff, handle_key}
use restic.Sets
use restic.Sets.Members.{has-insert}
use restic.Index.IndexMap.Chains.{Item, newest}
use restic.Index.IndexMap.Walks.{first_of, item_of}
use restic.Index.IndexMap.Lookup.{get-contents}
use restic.Index.IndexMap.{IndexEntry}
use restic.Index.IndexMap.Prepare.{contents}
use restic.Index.PackIndex.{PackIndex, IndexError, lift_map}
use restic.Index.PackIndex.Operations
use restic.Index.PackIndex.Tables.{contents_of, IsIndex, map_of-total}
use restic.Index.MasterIndex.{MasterIndex, has_in, has, add_pending}

-- Whether an item has the ID.
unfoldable pub some_id : BlobId → List Item → Bool
some_id id [] = false
some_id id (x ∷ xs) = bytes_eq x.id id || some_id id xs

-- Whether an index has the blob in the table of its type.
abbrev pub listed : BlobHandle → PackIndex → Bool
listed bh i = some_id bh.id (contents_of i.by_type bh.type)

unfoldable pub listed_in : BlobHandle → List PackIndex → Bool
listed_in bh [] = false
listed_in bh (i ∷ is) = listed bh i || listed_in bh is

-- Whether a MasterIndex knows the blob.
abbrev pub known : BlobHandle → MasterIndex → Bool
known bh mi = Sets.has bh mi.pending_blobs || listed_in bh mi.idx

-- Whether one of the blobs has the handle.
unfoldable pub among : BlobHandle → List Blob → Bool
among bh [] = false
among bh (b ∷ bs) = handle_eq b.handle bh || among bh bs

abbrev pub present : Option Item → Bool
present none = false
present (some x) = true

pub some_id-newest :
    (id : BlobId) (xs acc : List Item)
    → present (first_of (newest id xs acc)) ≡ (present (first_of acc) || some_id id xs)
unfolding some_id newest
some_id-newest id [] acc = ground arith
some_id-newest id (x ∷ xs) acc = elim (Bool-cases (bytes_eq x.id id)) [
  | inl e ↦ rw e (some_id-newest id xs (x ∷ acc) ∙ ground arith)
  | inr e ↦ rw e (some_id-newest id xs acc)
]

pub some_id-append :
    (id : BlobId) (xs ys : List Item) → some_id id (xs ++ ys) ≡ (some_id id xs || some_id id ys)
unfolding some_id
some_id-append id [] ys = refl
some_id-append id (x ∷ xs) ys = ground (arith, some_id-append id xs ys)

entry_present :
    (o : Option IndexEntry)
    → (elim o as (λ _. Bool) [ none ↦ false | some x ↦ true ]) ≡ present (item_of o)
entry_present none = refl
entry_present (some e) = refl

-- Every index of the list is well formed.
abbrev pub IsMaster : MasterIndex → Type 0
IsMaster mi = All (IsIndex) mi.idx

index_has :
    (i : PackIndex) (bh : BlobHandle)
    → IsIndex i
    → bh.type ≢ num_blob_types
    → Operations.has i bh ≡ ok (listed bh i)
unfolding lift_map contents_of Operations.has
index_has i bh h typed =
    let (m, e) = map_of-total i.by_type bh.type typed in
    let (built, within) = h bh.type m e in
    let (o, made, found) = get-contents m bh.id built in
    rw (e, made)
      (ap (λ (k : Bool). ok k)
        (entry_present o ∙ ap present found ∙ some_id-newest bh.id (contents m) []))

has_in-listed :
    (is : List PackIndex) (bh : BlobHandle)
    → All (IsIndex) is
    → bh.type ≢ num_blob_types
    → has_in is bh ≡ ok (listed_in bh is)
unfolding has_in listed_in
has_in-listed [] bh h typed = refl
has_in-listed (i ∷ is) bh h typed = elim (Bool-cases (listed bh i)) [
  | inl e ↦ rw (index_has i bh h.0 typed, e) refl
  | inr e ↦ rw (index_has i bh h.0 typed, e) (has_in-listed is bh h.1 typed)
]

pub has-known :
    (mi : MasterIndex) (bh : BlobHandle)
    → IsMaster mi
    → bh.type ≢ num_blob_types
    → has mi bh ≡ ok (known bh mi)
unfolding has
has-known mi bh h typed =
    ap (λ (r : Result IndexError Bool). if Sets.has bh mi.pending_blobs then ok true else r)
      (has_in-listed mi.idx bh h typed)
    ∙ ground arith

known_again :
    (mi : MasterIndex) (bh other : BlobHandle)
    → known bh mi ≡ true
    → known other mi ≡ (handle_eq bh other || known other mi)
known_again mi bh other h = elim (Bool-cases (handle_eq bh other)) [
  | inl e ↦ rw e (ap (λ (b : BlobHandle). known b mi) (sym ((handle_eq_iff bh other).0 e)) ∙ h)
  | inr e ↦ rw e refl
]

-- On well-formed indexes, AddPending returns true exactly for a blob that was not known, neither
-- as pending nor in an index. After it Has knows this blob and those of before, and no other.
pub add_pending-known :
    (mi : MasterIndex) (bh : BlobHandle)
    → IsMaster mi
    → bh.type ≢ num_blob_types
    → (mi' : MasterIndex) × (add_pending mi bh ≡ ok (mi', not (known bh mi)))
      × (mi'.idx ≡ mi.idx)
      × ((other : BlobHandle)
          → other.type ≢ num_blob_types
          → has mi' other ≡ ok (handle_eq bh other || known other mi))
unfolding add_pending
add_pending-known mi bh h typed = elim (Bool-cases (Sets.has bh mi.pending_blobs)) [
  | inl e ↦ (
    mi,
    rw e refl,
    refl,
    λ other typed'.
        has-known mi other h typed'
        ∙ ap (λ (k : Bool). ok k) (known_again mi bh other (ground (arith, e))),
  )
  | inr e ↦ elim (Bool-cases (listed_in bh mi.idx)) [
    | inl f ↦ (
      mi,
      rw (e, has_in-listed mi.idx bh h typed, f) refl,
      refl,
      λ other typed'.
          has-known mi other h typed'
          ∙ ap (λ (k : Bool). ok k) (known_again mi bh other (ground (arith, f))),
    )
    | inr f ↦
        let mi' : MasterIndex = record mi { pending_blobs = Sets.insert bh mi.pending_blobs } in
        (
          mi',
          rw (e, has_in-listed mi.idx bh h typed, f) refl,
          refl,
          λ other typed'.
              has-known mi' other h typed'
              ∙ ap (λ (k : Bool). ok k) (ground (arith, has-insert bh other mi.pending_blobs)),
        )
  ]
]
