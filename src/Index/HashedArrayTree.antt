-- ===== src/Index/HashedArrayTree.antt =====
-- hashedArrayTree of indexmap.go: a growing array in blocks of equal, doubling size.
-- The entries are any type with a zero value. A uint counts entries in memory and does not wrap.
pub mod Invariant
pub mod Doubling
pub mod Growth
pub mod Write
use Prim.Native.Nat.{bit_and}
use restic.Prelude.{
  ℕ, ◌+◌, ◌-◌, ◌*◌, ◌/◌, ◌^◌, Option, none, some, List, [], ◌∷◌, ◌++◌, ◌==◌, leb, if◌then◌else◌,
  length, replicate, set, get_elem?,
}

pub record HashedArrayTree (A : Type 0) : Type 0 where
  pub mask : ℕ
  pub mask_shift : ℕ
  pub block_size : ℕ
  pub size : ℕ
  -- a nil slice is the empty block
  pub block_list : List (List A)

-- newHAT
unfoldable pub new_hat : {A : Type 0} → HashedArrayTree A
new_hat = record { mask = 3; mask_shift = 2; block_size = 4; size = 0; block_list = replicate 4 [] }

module _ {A : Type 0} where
  -- index: the block, and the place in the block
  unfoldable pub index : HashedArrayTree A → ℕ → ℕ × ℕ
  index h pos = (pos / 2 ^ h.mask_shift, bit_and pos h.mask)

  -- Pairwise merging of blocks. An odd last block, which the code would panic on, is dropped.
  pub merge_pairs : List (List A) → List (List A)
  merge_pairs (a ∷ b ∷ rest) = (a ++ b) ∷ merge_pairs rest
  merge_pairs _ = []

  -- The doubling of the list and of the block size in grow.
  pub double : HashedArrayTree A → HashedArrayTree A
  unfolding merge_pairs
  double h =
      let merged = merge_pairs h.block_list in
      record h {
        mask = h.mask * 2 + 1;
        mask_shift = h.mask_shift + 1;
        block_size = h.block_size * 2;
        block_list = merged ++ replicate (h.block_size * 2 - length merged) [];
      }

  -- A fresh batch of zero entries, where the position begins a block.
  pub new_batch : A → HashedArrayTree A → ℕ → ℕ → HashedArrayTree A
  new_batch z h idx sub_idx =
      if sub_idx == 0
      then record h { block_list = set h.block_list idx (replicate h.block_size z) }
      else h

  grow : A → HashedArrayTree A → HashedArrayTree A
  unfolding index double new_batch
  grow z h =
      let (idx, sub_idx) = index h h.size in
      if idx == length h.block_list
      then new_batch z (double h) (idx / 2) sub_idx
      else new_batch z h idx sub_idx

  -- Alloc: the tree, and the position of the entry that the returned pointer is for.
  unfoldable pub alloc : A → HashedArrayTree A → HashedArrayTree A × ℕ
  unfolding grow
  alloc z h = let g = grow z h in (record g { size = g.size + 1 }, g.size)

  pub get2 : List (List A) → ℕ → ℕ → Option A
  get2 blocks idx sub_idx = elim (get_elem? blocks idx) [
    | none ↦ none
    | some block ↦ get_elem? block sub_idx
  ]

  -- Ref: `none` is the panic on an index out of bounds.
  unfoldable pub ref : HashedArrayTree A → ℕ → Option A
  unfolding index get2
  ref h pos =
      if leb h.size pos
      then none
      else (let (idx, sub_idx) = index h pos in get2 h.block_list idx sub_idx)

  set2 : List (List A) → ℕ → ℕ → A → List (List A)
  set2 blocks idx sub_idx e = elim (get_elem? blocks idx) [
    | none ↦ blocks
    | some block ↦ set blocks idx (set block sub_idx e)
  ]

  -- A write through a pointer that Alloc or Ref returned.
  unfoldable pub put : HashedArrayTree A → ℕ → A → HashedArrayTree A
  unfolding index set2
  put h pos e =
      let (idx, sub_idx) = index h pos in record h { block_list = set2 h.block_list idx sub_idx e }
