-- ===== src/Index/HashedArrayTree/Invariant.antt =====
-- The shape of a hashedArrayTree: 2^k places for blocks of 2^k entries, filled from the left.
use Prim.Native.Nat.{bit_and}
use native.Mathlib.Nat.{div-add-mod', mod-lt, one-le-pow, div-lt_iff_lt-mul}
use restic.Prelude.{
  ℕ, zero, suc, ◌+◌, ◌-◌, ◌*◌, ◌/◌, ◌%◌, ◌^◌, ◌≤◌, ◌<◌, ◌≡◌, ◌∙◌, refl, sym, ap, false, none, List,
  [], ◌∷◌, ◌++◌, leb, if◌then◌else◌, length, replicate, get_elem?, flatten, All, arith,
  append_assoc, length-append, get_elem?-append_left, get_elem?-append_right,
}
use restic.Prelude.Bits.{bit_and_mask}
use restic.Index.HashedArrayTree.{HashedArrayTree, new_hat, index, merge_pairs, get2, ref}

pub width_pos : (k : ℕ) → 0 < 2 ^ k
width_pos k = one-le-pow k 2 (omega arith)

-- A position lies in an allocated block.
pub in_block : (n w pos : ℕ) → 0 < w → pos < n * w → pos / w < n
in_block n w pos hw h = (div-lt_iff_lt-mul hw).1 h

module _ {A : Type 0} where
  abbrev pub HasWidth : ℕ → List A → Type 0
  HasWidth w b = length b ≡ w

  pub length-flatten :
      (w : ℕ) (xs : List (List A)) → All (HasWidth w) xs → length (flatten xs) ≡ length xs * w
  length-flatten w [] h = omega arith
  length-flatten w (x ∷ xs) h =
      let e = h.0 in omega (arith, length-append x (flatten xs), length-flatten w xs h.1)

  -- Two-level access is access to the concatenated blocks.
  get2-flatten :
      (w : ℕ) (xs rest : List (List A)) (idx sub_idx : ℕ)
      → All (HasWidth w) xs
      → idx < length xs
      → sub_idx < w
      → get2 (xs ++ rest) idx sub_idx ≡ get_elem? (flatten (xs ++ rest)) (idx * w + sub_idx)
  unfolding get2
  get2-flatten w [] rest idx sub_idx h hi hs = absurd (omega arith)
  get2-flatten w (x ∷ xs) rest zero sub_idx h hi hs =
      let e = h.0 in
      sym (get_elem?-append_left x (flatten (xs ++ rest)) sub_idx (omega arith))
      ∙ ap (get_elem? (x ++ flatten (xs ++ rest))) (omega arith)
  get2-flatten w (x ∷ xs) rest (suc idx) sub_idx h hi hs =
      let e = h.0 in
      get2-flatten w xs rest idx sub_idx h.1 (omega arith) hs
      ∙ sym (
          get_elem?-append_right x (flatten (xs ++ rest)) (suc idx * w + sub_idx)
            (idx * w + sub_idx) (omega arith))

  pub flatten-merge_pairs :
      (n : ℕ) (xs : List (List A)) → length xs ≡ n * 2 → flatten (merge_pairs xs) ≡ flatten xs
  unfolding merge_pairs
  flatten-merge_pairs n [] h = refl
  flatten-merge_pairs n (x ∷ []) h = absurd (omega arith)
  flatten-merge_pairs zero (x ∷ y ∷ xs) h = absurd (omega arith)
  flatten-merge_pairs (suc n) (x ∷ y ∷ xs) h =
      ap (λ t. (x ++ y) ++ t) (flatten-merge_pairs n xs (omega arith))
      ∙ append_assoc x y (flatten xs)

  pub length-merge_pairs :
      (n : ℕ) (xs : List (List A)) → length xs ≡ n * 2 → length (merge_pairs xs) ≡ n
  unfolding merge_pairs
  length-merge_pairs n [] h = omega arith
  length-merge_pairs n (x ∷ []) h = absurd (omega arith)
  length-merge_pairs zero (x ∷ y ∷ xs) h = absurd (omega arith)
  length-merge_pairs (suc n) (x ∷ y ∷ xs) h = ap suc (length-merge_pairs n xs (omega arith))

  pub merge_pairs-width :
      (w : ℕ) (xs : List (List A)) → All (HasWidth w) xs → All (HasWidth (w * 2)) (merge_pairs xs)
  unfolding merge_pairs
  merge_pairs-width w [] h = tt
  merge_pairs-width w (x ∷ []) h = tt
  merge_pairs-width w (x ∷ y ∷ xs) h =
      let ex = h.0 in
      let ey = h.1.0 in (omega (arith, length-append x y), merge_pairs-width w xs h.1.1)

  -- `full` are the blocks that have been allocated.
  pub record IsValid (h : HashedArrayTree A) : Type 0 where
    pub full : List (List A)
    pub shape : h.block_list ≡ full ++ replicate (2 ^ h.mask_shift - length full) []
    pub mask : h.mask ≡ 2 ^ h.mask_shift - 1
    pub block_size : h.block_size ≡ 2 ^ h.mask_shift
    pub shift : 1 ≤ h.mask_shift
    pub widths : All (HasWidth (2 ^ h.mask_shift)) full
    pub few : length full ≤ 2 ^ h.mask_shift
    pub covers : h.size ≤ length full * 2 ^ h.mask_shift
    pub tight : length full * 2 ^ h.mask_shift < h.size + 2 ^ h.mask_shift

  -- The entries in the order of their positions.
  abbrev pub flat : HashedArrayTree A → List A
  flat h = flatten h.block_list

  pub new_hat-IsValid : IsValid (new_hat {A = A})
  unfolding new_hat
  new_hat-IsValid = record {
    full = [];
    shape = refl;
    mask = refl;
    block_size = refl;
    shift = omega arith;
    widths = tt;
    few = omega arith;
    covers = omega arith;
    tight = omega arith;
  }

  -- The same for a list of blocks that is known to begin so.
  pub get2-blocks :
      (w : ℕ) (blocks xs rest : List (List A)) (idx sub_idx : ℕ)
      → blocks ≡ xs ++ rest
      → All (HasWidth w) xs
      → idx < length xs
      → sub_idx < w
      → get2 blocks idx sub_idx ≡ get_elem? (flatten blocks) (idx * w + sub_idx)
  get2-blocks w blocks xs rest idx sub_idx e h hi hs =
      rw e (get2-flatten w xs rest idx sub_idx h hi hs)

  pub index-eq :
      (h : HashedArrayTree A) (pos : ℕ)
      → h.mask ≡ 2 ^ h.mask_shift - 1
      → index h pos ≡ (pos / 2 ^ h.mask_shift, pos % 2 ^ h.mask_shift)
  unfolding index
  index-eq h pos e =
      ap (λ (m : ℕ). (pos / 2 ^ h.mask_shift, m))
        (ap (bit_and pos) e ∙ bit_and_mask h.mask_shift pos)

  ref_lem :
      (h : HashedArrayTree A) (pos : ℕ)
      → ref h pos
        ≡ (if leb h.size pos then none else get2 h.block_list (index h pos).0 (index h pos).1)
  unfolding ref
  ref_lem h pos = refl

  -- Ref gives the entry at the position.
  pub ref-flat :
      (h : HashedArrayTree A) (pos : ℕ)
      → IsValid h
      → pos < h.size
      → ref h pos ≡ get_elem? (flat h) pos
  ref-flat h pos v lt =
      let w = 2 ^ h.mask_shift in
      let small : leb h.size pos ≡ false = ground arith in
      let covers = v.covers in
      ref_lem h pos
      ∙ rw (small, index-eq h pos v.mask)
          (get2-blocks w h.block_list v.full _ (pos / w) (pos % w) v.shape v.widths
            (in_block (length v.full) w pos (width_pos h.mask_shift) (omega arith))
            (mod-lt pos (width_pos h.mask_shift)))
      ∙ ap (get_elem? (flat h)) (div-add-mod' pos w)
