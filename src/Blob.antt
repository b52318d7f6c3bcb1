-- ===== src/Blob.antt =====
-- internal/restic/blob.go: blob types, handles, and entries of packs.
-- A restic.ID is its 32 bytes, as a list. Go's comparison of structs and arrays by == is written
-- out as Boolean functions.
use restic.Prelude.{
  ℕ, ◌+◌, ◌-◌, ◌%◌, ◌^◌, ◌≡◌, refl, Bool, true, false, ◌&&◌, not, List, [], ◌∷◌, arith, ◌==◌,
  if◌then◌else◌, bytes_eq, bytes_eq_iff, bytes_eq_refl,
}
use restic.Prelude.Maps.{Key}
use restic.Prelude.{◌↔◌}

abbrev pub Bytes : Type 0
Bytes = List ℕ

abbrev pub BlobId : Type 0
BlobId = List ℕ

-- The BlobType enumeration. NumBlobTypes is used as a value by prune.
pub data BlobType : Type 0 where
  invalid_blob data_blob tree_blob num_blob_types : BlobType

unfoldable pub type_eq : BlobType → BlobType → Bool
type_eq invalid_blob invalid_blob = true
type_eq data_blob data_blob = true
type_eq tree_blob tree_blob = true
type_eq num_blob_types num_blob_types = true
type_eq _ _ = false

pub record BlobHandle : Type 0 where
  pub id : BlobId
  pub type : BlobType

pub record Blob : Type 0 where
  pub handle : BlobHandle
  pub open handle use *
  pub len : ℕ
  pub offset : ℕ
  pub uncompressed : ℕ

pub record PackedBlob : Type 0 where
  pub blob : Blob
  pub open blob use *
  pub pack_id : BlobId

unfoldable pub handle_eq : BlobHandle → BlobHandle → Bool
handle_eq a b = bytes_eq a.id b.id && type_eq a.type b.type

unfoldable pub blob_eq : Blob → Blob → Bool
blob_eq a b =
    handle_eq a.handle b.handle
    && a.len == b.len
    && a.offset == b.offset
    && a.uncompressed == b.uncompressed

unfoldable pub packed_blob_eq : PackedBlob → PackedBlob → Bool
packed_blob_eq a b = blob_eq a.blob b.blob && bytes_eq a.pack_id b.pack_id

-- uint(crypto.PlaintextLength(int(n))): the iv and the mac have 16 bytes each, and a length
-- below 32 wraps around.
abbrev pub plaintext_length : ℕ → ℕ
plaintext_length n = (n + 2 ^ 64 - 32) % 2 ^ 64

unfoldable pub is_compressed : Blob → Bool
is_compressed b = not (b.uncompressed == 0)

unfoldable pub data_length : Blob → ℕ
data_length b = if not (b.uncompressed == 0) then b.uncompressed else plaintext_length b.len

pub type_eq_refl : (t : BlobType) → type_eq t t ≡ true
unfolding type_eq
type_eq_refl invalid_blob = refl
type_eq_refl data_blob = refl
type_eq_refl tree_blob = refl
type_eq_refl num_blob_types = refl

pub type_eq→eq : (s t : BlobType) → type_eq s t ≡ true → s ≡ t
unfolding type_eq
type_eq→eq s t h = ground arith

pub handle_eq_refl : (a : BlobHandle) → handle_eq a a ≡ true
unfolding handle_eq
handle_eq_refl a = ground (arith, bytes_eq_refl a.id, type_eq_refl a.type)

pub handle_eq→eq : (a b : BlobHandle) → handle_eq a b ≡ true → a ≡ b
unfolding handle_eq
handle_eq→eq a b h = ground (arith, bytes_eq_iff a.id b.id, type_eq→eq a.type b.type)

pub blob_eq_refl : (a : Blob) → blob_eq a a ≡ true
unfolding blob_eq
blob_eq_refl a = ground (arith, handle_eq_refl a.handle)

pub blob_eq→eq : (a b : Blob) → blob_eq a b ≡ true → a ≡ b
unfolding blob_eq
blob_eq→eq a b h = ground (arith, handle_eq→eq a.handle b.handle)

pub packed_blob_eq_refl : (a : PackedBlob) → packed_blob_eq a a ≡ true
unfolding packed_blob_eq
packed_blob_eq_refl a = ground (arith, blob_eq_refl a.blob, bytes_eq_refl a.pack_id)

pub packed_blob_eq→eq : (a b : PackedBlob) → packed_blob_eq a b ≡ true → a ≡ b
unfolding packed_blob_eq
packed_blob_eq→eq a b h = ground (arith, blob_eq→eq a.blob b.blob, bytes_eq_iff a.pack_id b.pack_id)

-- IDSet as a list without repetition: Has and Insert.
unfoldable pub has_id : BlobId → List BlobId → Bool
has_id id [] = false
has_id id (x ∷ xs) = if bytes_eq x id then true else has_id id xs

unfoldable pub insert_id : BlobId → List BlobId → List BlobId
insert_id id [] = id ∷ []
insert_id id (x ∷ xs) = if bytes_eq x id then x ∷ xs else x ∷ insert_id id xs

pub handle_eq_iff : (a b : BlobHandle) → (handle_eq a b ≡ true) ↔ (a ≡ b)
handle_eq_iff a b = (handle_eq→eq a b, λ e. ground (arith, e, handle_eq_refl a))

-- Handles as the keys of maps and sets.
instance abbrev pub handle_key : Key BlobHandle
handle_key = record { same = handle_eq; same_iff = handle_eq_iff }
