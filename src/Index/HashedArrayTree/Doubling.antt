-- ===== src/Index/HashedArrayTree/Doubling.antt =====
-- Room for one more entry: a new block, and doubled blocks when there is no place for one.
use native.Mathlib.Nat.{pow-suc}
use restic.Prelude.{
  ℕ, suc, ◌+◌, ◌-◌, ◌*◌, ◌/◌, ◌^◌, ◌≤◌, ◌<◌, ◌≡◌, ◌∙◌, refl, sym, ap, ap₂, subst, List, [], ◌∷◌,
  ◌++◌, length, replicate, set, flatten, All, All-snoc, arith, append_assoc, length-append,
  length-replicate, flatten-append, flatten-replicate_nil, set-append_right, append-nil,
}
use restic.Index.HashedArrayTree.{HashedArrayTree, merge_pairs, double, new_batch}
use restic.Index.HashedArrayTree.Invariant.{
  width_pos, HasWidth, IsValid, flat, flatten-merge_pairs, length-merge_pairs, merge_pairs-width,
}

module _ {A : Type 0} where
  -- The invariant after grow and before the position is taken: there is room for one more entry.
  pub record HasRoom (h : HashedArrayTree A) : Type 0 where
    pub full : List (List A)
    pub shape : h.block_list ≡ full ++ replicate (2 ^ h.mask_shift - length full) []
    pub mask : h.mask ≡ 2 ^ h.mask_shift - 1
    pub block_size : h.block_size ≡ 2 ^ h.mask_shift
    pub shift : 1 ≤ h.mask_shift
    pub widths : All (HasWidth (2 ^ h.mask_shift)) full
    pub few : length full ≤ 2 ^ h.mask_shift
    pub covers : h.size < length full * 2 ^ h.mask_shift
    pub tight : length full * 2 ^ h.mask_shift ≤ h.size + 2 ^ h.mask_shift

  pub HasRoom-take : (h : HashedArrayTree A) → HasRoom h → IsValid (record h { size = h.size + 1 })
  HasRoom-take h r = record {
    full = r.full;
    shape = r.shape;
    mask = r.mask;
    block_size = r.block_size;
    shift = r.shift;
    widths = r.widths;
    few = r.few;
    covers = let c = r.covers in omega arith;
    tight = let t = r.tight in omega arith;
  }

  -- What grow does: room, the same size, and the old entries in their places.
  pub record Grown (h g : HashedArrayTree A) : Type 0 where
    pub room : HasRoom g
    pub size : g.size ≡ h.size
    pub extra : List A
    pub kept : flat g ≡ flat h ++ extra

  -- A fresh block goes where the full blocks end.
  set-fresh :
      (full : List (List A)) (b : List A) (n w : ℕ)
      → n ≡ length full
      → n < w
      → set (full ++ replicate (w - length full) []) n b
        ≡ (full ++ b ∷ []) ++ replicate (w - length (full ++ b ∷ [])) []
  set-fresh full b n w e lt =
      let m : ℕ = w - n - 1 in
      let e1 : w - length full ≡ suc m = omega arith in
      let e2 : m ≡ w - length (full ++ b ∷ []) = omega (arith, length-append full (b ∷ [])) in
      ap (λ (k : ℕ). set (full ++ replicate k []) n b) e1
      ∙ set-append_right full (replicate (suc m) []) n 0 b (omega arith)
      ∙ sym (append_assoc full (b ∷ []) (replicate m []))
      ∙ ap (λ (k : ℕ). (full ++ b ∷ []) ++ replicate k []) e2

  pub flatten-shape : (xs : List (List A)) (n : ℕ) → flatten (xs ++ replicate n []) ≡ flatten xs
  flatten-shape xs n =
      flatten-append xs (replicate n [])
      ∙ ap (λ t. flatten xs ++ t) (flatten-replicate_nil n)
      ∙ append-nil (flatten xs)

  flatten-snoc : (xs : List (List A)) (b : List A) → flatten (xs ++ b ∷ []) ≡ flatten xs ++ b
  flatten-snoc xs b = flatten-append xs (b ∷ []) ∙ ap (λ t. flatten xs ++ t) (append-nil b)

  -- The full blocks are used up, and there is a place for one more.
  pub record IsReady (h : HashedArrayTree A) : Type 0 where
    pub full : List (List A)
    pub shape : h.block_list ≡ full ++ replicate (2 ^ h.mask_shift - length full) []
    pub mask : h.mask ≡ 2 ^ h.mask_shift - 1
    pub block_size : h.block_size ≡ 2 ^ h.mask_shift
    pub shift : 1 ≤ h.mask_shift
    pub widths : All (HasWidth (2 ^ h.mask_shift)) full
    pub place : length full < 2 ^ h.mask_shift
    pub size : h.size ≡ length full * 2 ^ h.mask_shift

  pub new_batch-Grown :
      (z : A) (h : HashedArrayTree A) (idx : ℕ) (r : IsReady h)
      → idx ≡ length r.full
      → Grown h (new_batch z h idx 0)
  unfolding new_batch
  new_batch-Grown z h idx r e =
      let w = 2 ^ h.mask_shift in
      let b : List A = replicate h.block_size z in
      let wide : HasWidth w b = length-replicate h.block_size z ∙ r.block_size in
      let count : length (r.full ++ b ∷ []) ≡ length r.full + 1 = length-append r.full (b ∷ []) in
      let place = r.place in
      let size = r.size in
      let shaped : set h.block_list idx b
          ≡ (r.full ++ b ∷ []) ++ replicate (w - length (r.full ++ b ∷ [])) [] =
        ap (λ (l : List (List A)). set l idx b) r.shape
        ∙ set-fresh r.full b idx w e (omega arith) in
      record {
        room = record {
          full = r.full ++ b ∷ [];
          shape = shaped;
          mask = r.mask;
          block_size = r.block_size;
          shift = r.shift;
          widths = All-snoc (HasWidth w) r.full b r.widths wide;
          few = omega arith;
          covers = omega (arith, ap (λ (n : ℕ). n * w) count, width_pos h.mask_shift);
          tight = omega (arith, ap (λ (n : ℕ). n * w) count);
        };
        size = refl;
        extra = b;
        kept =
            ap flatten shaped
            ∙ flatten-shape (r.full ++ b ∷ []) _
            ∙ flatten-snoc r.full b
            ∙ ap (λ t. t ++ b) (sym (ap flatten r.shape ∙ flatten-shape r.full _));
      }

  -- A valid tree whose places are all taken becomes ready by doubling.
  pub record Doubled (h : HashedArrayTree A) : Type 0 where
    pub ready : IsReady (double h)
    pub half : length ready.full ≡ 2 ^ h.mask_shift / 2
    pub flat : flat (double h) ≡ flat h

  pub double-Doubled :
      (h : HashedArrayTree A) (v : IsValid h)
      → length v.full ≡ 2 ^ h.mask_shift
      → h.size ≡ 2 ^ h.mask_shift * 2 ^ h.mask_shift
      → Doubled h
  unfolding double
  double-Doubled h v full_up size =
      let w = 2 ^ h.mask_shift in
      let n : ℕ = 2 ^ (h.mask_shift - 1) in
      let shift = v.shift in
      let bs = v.block_size in
      let even : w ≡ n * 2 = ap (λ (k : ℕ). 2 ^ k) (omega arith) ∙ pow-suc 2 (h.mask_shift - 1) in
      let wider : 2 ^ (h.mask_shift + 1) ≡ w * 2 =
        ap (λ (k : ℕ). 2 ^ k) (omega arith) ∙ pow-suc 2 h.mask_shift in
      let only : h.block_list ≡ v.full =
        v.shape
        ∙ ap (λ (k : ℕ). v.full ++ replicate k []) {x = w - length v.full} {y = 0} (omega arith)
        ∙ append-nil v.full in
      let pairs : length h.block_list ≡ n * 2 = ap length only ∙ full_up ∙ even in
      let count : length (merge_pairs h.block_list) ≡ n = length-merge_pairs n h.block_list pairs in
      record {
        ready = record {
          full = merge_pairs h.block_list;
          shape =
              ap
                (λ (k : ℕ).
                  merge_pairs h.block_list ++ replicate (k - length (merge_pairs h.block_list)) [])
                (ap (λ (k : ℕ). k * 2) bs ∙ sym wider);
          mask = let m = v.mask in omega (arith, width_pos h.mask_shift);
          block_size = omega arith;
          shift = omega arith;
          widths =
              subst (λ (k : ℕ). All (HasWidth k) (merge_pairs h.block_list)) (sym wider)
                (merge_pairs-width w h.block_list
                  (subst (λ (l : List (List A)). All (HasWidth w) l) (sym only) v.widths));
          place = omega (arith, width_pos (h.mask_shift - 1));
          size = omega (arith, ap₂ (λ (a b : ℕ). a * b) count wider, ap (λ (k : ℕ). k * w) even);
        };
        half = omega arith;
        flat =
            flatten-shape (merge_pairs h.block_list) _ ∙ flatten-merge_pairs n h.block_list pairs;
      }
