-- ===== src/Index/AssociatedSet.antt =====
-- AssociatedSet of associated_data.go: a value for each blob, in arrays that are indexed by the
-- blob's position in the first index of the MasterIndex, and a map for all other blobs.
pub mod Slots
pub mod MapLaws
pub mod Updates
pub mod Removal
pub mod Created
pub mod Stable
use restic.Prelude.{
  ℕ, zero, suc, ◌+◌, ◌≡◌, Bool, true, false, ◌||◌, Option, none, some, List, [], ◌∷◌, ◌++◌, leb,
  if◌then◌else◌, length, get_elem?, set, replicate, map, Result, ok, err, ◌>>=◌,
}
use restic.Prelude.Maps.{lookup, put, delete}
use restic.Blob.{
  BlobId, BlobType, invalid_blob, data_blob, tree_blob, num_blob_types, BlobHandle, PackedBlob,
  type_eq, handle_key,
}
use restic.Index.PackIndex.{IndexError, out_of_range}
use restic.Index.MasterIndex.{MasterIndex, blob_index, stable_len, each_blob}

-- associatedSetSub
pub record Sub {ℓ} (T : Type ℓ) : Type ℓ where
  pub value : List T
  pub is_set : List Bool

-- The array byType is a function; an index out of range is an error of sub_of.
pub record AssociatedSet {ℓ} (T : Type ℓ) : Type ℓ where
  pub by_type : BlobType → Sub T
  pub overflow : List (BlobHandle × T)
  pub idx : MasterIndex

unfoldable pub sub_of {ℓ} : {T : Type ℓ} → AssociatedSet T → BlobType → Result IndexError (Sub T)
sub_of a num_blob_types = err out_of_range
sub_of a t = ok (a.by_type t)

unfoldable pub set_sub {ℓ} : {T : Type ℓ} → AssociatedSet T → BlobType → Sub T → AssociatedSet T
set_sub a t bt = record a { by_type = λ (s : BlobType). if type_eq t s then bt else a.by_type s }

-- The place in the arrays, unless `idx >= len(bt.value) || idx == -1`.
unfoldable pub slot : ℕ → Option ℕ → Option ℕ
slot len none = none
slot len (some i) = if leb len i then none else some i

-- Get, with what the two arrays have at the place.
unfoldable pub read_flag {ℓ} : {T : Type ℓ} → Option Bool → Option T → Result IndexError (Option T)
read_flag none v = err out_of_range
read_flag (some false) v = ok none
read_flag (some true) none = err out_of_range
read_flag (some true) (some v) = ok (some v)

unfoldable pub read_at {ℓ} : {T : Type ℓ} → Sub T → Option ℕ → Result IndexError (Option T)
unfolding read_flag
read_at bt none = ok none
read_at bt (some i) = read_flag (get_elem? bt.is_set i) (get_elem? bt.value i)

module _ {ℓ} {T : Type ℓ} where
  -- Get, where the blob is not in the overflow map.
  unfoldable pub get_in_arrays : AssociatedSet T → BlobHandle → Result IndexError (Option T)
  unfolding sub_of slot read_at
  get_in_arrays a bh = do
    i ← blob_index a.idx bh
    bt ← sub_of a bh.type
    read_at bt (slot (length bt.value) i)

  unfoldable pub get : AssociatedSet T → BlobHandle → Result IndexError (Option T)
  unfolding get_in_arrays
  get a bh = elim (lookup bh a.overflow) [ some v ↦ ok (some v) | none ↦ get_in_arrays a bh ]

  unfoldable pub has : AssociatedSet T → BlobHandle → Result IndexError Bool
  has a bh = do v ← get a bh; ok (elim v [ none ↦ false | some x ↦ true ])

  -- Set, at the place; without one the value goes to the overflow map.
  unfoldable pub write_at : AssociatedSet T → BlobHandle → T → Sub T → Option ℕ → AssociatedSet T
  unfolding set_sub
  write_at a bh val bt none = record a { overflow = put bh val a.overflow }
  write_at a bh val bt (some i) =
      set_sub a bh.type (record { value = set bt.value i val; is_set = set bt.is_set i true })

  unfoldable pub set_value : AssociatedSet T → BlobHandle → T → Result IndexError (AssociatedSet T)
  unfolding write_at sub_of slot
  set_value a bh val = elim (lookup bh a.overflow) [
    | some v ↦ ok (record a { overflow = put bh val a.overflow })
    | none ↦ (do
      i ← blob_index a.idx bh
      bt ← sub_of a bh.type
      ok (write_at a bh val bt (slot (length bt.value) i)))
  ]

  -- Insert; `zero_value` is the zero value of the type.
  unfoldable pub insert : T → AssociatedSet T → BlobHandle → Result IndexError (AssociatedSet T)
  insert zero_value a bh = set_value a bh zero_value

  unfoldable pub clear_at : AssociatedSet T → BlobHandle → Sub T → Option ℕ → AssociatedSet T
  unfolding set_sub
  clear_at a bh bt none = a
  clear_at a bh bt (some i) = set_sub a bh.type (record bt { is_set = set bt.is_set i false })

  unfoldable pub delete_value : AssociatedSet T → BlobHandle → Result IndexError (AssociatedSet T)
  unfolding clear_at sub_of slot
  delete_value a bh = elim (lookup bh a.overflow) [
    | some v ↦ ok (record a { overflow = delete bh a.overflow })
    | none ↦ (do
      i ← blob_index a.idx bh
      bt ← sub_of a bh.type
      ok (clear_at a bh bt (slot (length bt.value) i)))
  ]

  unfoldable pub empty_sub : Sub T
  empty_sub = record { value = []; is_set = [] }

  unfoldable pub zero_sub : T → ℕ → Sub T
  zero_sub zero_value count = record {
    value = replicate count zero_value;
    is_set = replicate count false;
  }

  unfoldable pub new_by_type : T → ℕ → ℕ → BlobType → Sub T
  unfolding empty_sub zero_sub
  new_by_type zero_value datas trees data_blob = zero_sub zero_value (datas + 1)
  new_by_type zero_value datas trees tree_blob = zero_sub zero_value (trees + 1)
  new_by_type zero_value datas trees t = empty_sub

  unfoldable pub new_associated_set : T → MasterIndex → Result IndexError (AssociatedSet T)
  unfolding new_by_type
  new_associated_set zero_value mi = do
    datas ← stable_len mi data_blob
    trees ← stable_len mi tree_blob
    ok (record { by_type = new_by_type zero_value datas trees; overflow = []; idx = mi })

  -- The function that For passes to Each.
  report : AssociatedSet T → List PackedBlob → Result IndexError (List (BlobHandle × T))
  report a [] = ok []
  report a (pb ∷ pbs) = do
    rest ← report a pbs
    val ← get a pb.handle
    ok (elim (lookup pb.handle a.overflow) [
      | some v ↦ rest
      | none ↦ elim val [ none ↦ rest | some v ↦ (pb.handle, v) ∷ rest ]
    ])

  -- For: what cb is called with, first for the overflow map.
  unfoldable pub for_each : AssociatedSet T → Result IndexError (List (BlobHandle × T))
  unfolding report
  for_each a = do pbs ← each_blob a.idx; rest ← report a pbs; ok (a.overflow ++ rest)

  unfoldable pub len : AssociatedSet T → Result IndexError ℕ
  len a = do entries ← for_each a; ok (length entries)

  unfoldable pub list : AssociatedSet T → Result IndexError (List BlobHandle)
  list a = do entries ← for_each a; ok (map (λ (e : BlobHandle × T). e.0) entries)
