-- ===== src/Index/MasterIndex/Storing.antt =====
-- StorePack of a MasterIndex keeps every blob known.
use restic.Prelude.{
  ℕ, ◌≡◌, ◌≢◌, ◌∙◌, refl, ap, Bool, true, false, ◌||◌, List, [], ◌∷◌, ◌++◌, arith, if◌then◌else◌,
  length, All, Result, ok, ◌>>=◌, Bool-cases, inl, inr, bytes_eq,
}
use restic.Blob.{BlobId, BlobType, num_blob_types, BlobHandle, Blob, handle_eq, handle_key, type_eq}
use restic.Sets
use restic.Sets.Members.{has-delete}
use restic.Index.PackIndex.{PackIndex, IndexError, new_index}
use restic.Index.PackIndex.Operations
use restic.Index.PackIndex.Tables.{contents_of, IsIndex, IsStorable, items_for}
use restic.Index.PackIndex.Store.{store_pack-contents, new_index-IsIndex, new_index-empty}
use restic.Index.MasterIndex.{MasterIndex, has, delete_pending, store_in_open, store_pack}
use restic.Index.MasterIndex.Known.{
  some_id, some_id-append, listed, listed_in, among, known, IsMaster, has-known,
}

some_id-items_for :
    (bh : BlobHandle) (n : ℕ) (bs : List Blob)
    → some_id bh.id (items_for n bh.type bs) ≡ among bh bs
unfolding some_id items_for among handle_eq
some_id-items_for bh n [] = refl
some_id-items_for bh n (b ∷ bs) = elim (Bool-cases (type_eq b.type bh.type)) [
  | inl e ↦
      rw e (ap (λ (k : Bool). bytes_eq b.id bh.id || k) (some_id-items_for bh n bs) ∙ ground arith)
  | inr e ↦ rw e (some_id-items_for bh n bs ∙ ground arith)
]

has-delete_pending :
    (bh : BlobHandle) (bs : List Blob) (pending : List BlobHandle)
    → Sets.has bh (delete_pending bs pending) ≡ (if among bh bs then false else Sets.has bh pending)
unfolding delete_pending among
has-delete_pending bh [] pending = refl
has-delete_pending bh (b ∷ bs) pending =
    has-delete_pending bh bs (Sets.delete b.handle pending)
    ∙ ground (arith, has-delete b.handle bh pending)

module _ (mhs : BlobType → BlobId → ℕ) where
  store-listed :
      (i i' : PackIndex) (bh : BlobHandle) (n : ℕ) (blobs : List Blob)
      → contents_of i'.by_type bh.type ≡ contents_of i.by_type bh.type ++ items_for n bh.type blobs
      → listed bh i' ≡ (listed bh i || among bh blobs)
  store-listed i i' bh n blobs grown =
      ap (some_id bh.id) grown
      ∙ some_id-append bh.id (contents_of i.by_type bh.type) (items_for n bh.type blobs)
      ∙ ap (λ (k : Bool). listed bh i || k) (some_id-items_for bh n blobs)

  new_index-open : (now : ℕ) → (new_index mhs now).final ≡ false
  unfolding new_index
  new_index-open now = refl

  new_index-unlisted :
      (now : ℕ) (bh : BlobHandle) → bh.type ≢ num_blob_types → listed bh (new_index mhs now) ≡ false
  unfolding some_id
  new_index-unlisted now bh typed = ap (some_id bh.id) (new_index-empty mhs now bh.type typed)

  abbrev StoredIn : List PackIndex → Result IndexError (List PackIndex) → List Blob → Type 0
  StoredIn is made blobs =
      (is' : List PackIndex) × (made ≡ ok is')
      × All (IsIndex) is'
      × ((other : BlobHandle)
          → other.type ≢ num_blob_types
          → listed_in other is' ≡ (listed_in other is || among other blobs))

  store_at :
      (now : ℕ) (i : PackIndex) (is : List PackIndex) (id : BlobId) (blobs : List Blob) (k : Bool)
      → i.final ≡ k
      → store_in_open mhs now (i ∷ is) id blobs ≡ (
          if k
          then (store_in_open mhs now is id blobs >>= λ is'. ok (i ∷ is'))
          else (Operations.store_pack i id blobs >>= λ i'. ok (i' ∷ is)))
  unfolding store_in_open
  store_at now i is id blobs k e =
      ap
        (λ (b : Bool).
          if b
          then (store_in_open mhs now is id blobs >>= λ is'. ok (i ∷ is'))
          else (Operations.store_pack i id blobs >>= λ i'. ok (i' ∷ is)))
        e

  store_in_open-listed :
      (now : ℕ) (is : List PackIndex) (id : BlobId) (blobs : List Blob)
      → All (IsIndex) is
      → All IsStorable blobs
      → StoredIn is (store_in_open mhs now is id blobs) blobs
  unfolding store_in_open listed_in
  store_in_open-listed now [] id blobs h fits =
      let new = new_index mhs now in
      let (i', made, valid, same, grown) =
        store_pack-contents new id blobs (new_index-IsIndex mhs now) (new_index-open now) fits in
      (
        i' ∷ [],
        rw made refl,
        (valid, tt),
        λ other typed.
            let none_yet : listed other new ≡ false = new_index-unlisted now other typed in
            ground (arith, store-listed new i' other (length new.packs) blobs (grown other.type)),
      )
  store_in_open-listed now (i ∷ is) id blobs h fits = elim (Bool-cases i.final) [
    | inl e ↦
        let (is', made, valid, grown) = store_in_open-listed now is id blobs h.1 fits in
        (
          i ∷ is',
          store_at now i is id blobs true e ∙ rw made refl,
          (h.0, valid),
          λ other typed. ground (arith, grown other typed),
        )
    | inr e ↦
        let (i', made, valid, same, grown) = store_pack-contents i id blobs h.0 e fits in
        (
          i' ∷ is,
          store_at now i is id blobs false e ∙ rw made refl,
          (valid, h.1),
          λ other typed.
              ground (arith, store-listed i i' other (length i.packs) blobs (grown other.type)),
        )
  ]

  -- On well-formed indexes, StorePack succeeds for a pack of blobs that all have a type and fit into
  -- 32 bits, whether there is an index that is not final or not. The indexes stay well formed; the
  -- blobs of the pack are pending no longer; and Has knows these blobs and those of before, the
  -- pending ones included, and no other.
  pub store_pack-known :
      (now : ℕ) (mi : MasterIndex) (id : BlobId) (blobs : List Blob)
      → IsMaster mi
      → All IsStorable blobs
      → (mi' : MasterIndex) × (store_pack mhs now mi id blobs ≡ ok mi')
        × IsMaster mi'
        × ((other : BlobHandle)
            → Sets.has other mi'.pending_blobs
              ≡ (if among other blobs then false else Sets.has other mi.pending_blobs))
        × ((other : BlobHandle)
            → other.type ≢ num_blob_types
            → has mi' other ≡ ok (among other blobs || known other mi))
  unfolding store_pack
  store_pack-known now mi id blobs h fits =
      let (is', made, valid, grown) = store_in_open-listed now mi.idx id blobs h fits in
      let mi' : MasterIndex = record {
        idx = is';
        pending_blobs = delete_pending blobs mi.pending_blobs;
      } in
      (
        mi',
        rw made refl,
        valid,
        λ other. has-delete_pending other blobs mi.pending_blobs,
        λ other typed.
            has-known mi' other valid typed
            ∙ ap (λ (k : Bool). ok k)
                (ground
                  (arith, grown other typed, has-delete_pending other blobs mi.pending_blobs)),
      )
