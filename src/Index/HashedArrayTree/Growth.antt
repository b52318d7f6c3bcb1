-- ===== src/Index/HashedArrayTree/Growth.antt =====
-- Alloc keeps the shape, and every entry that was there stays in its place.
use native.Mathlib.Nat.{
  div-add-mod', mod-lt, le_of_mul-le-mul_right, lt_of_mul-lt-mul_right, mul-le-mul_right,
}
use restic.Prelude.{
  ℕ, suc, ◌+◌, ◌-◌, ◌*◌, ◌/◌, ◌%◌, ◌^◌, ◌≤◌, ◌<◌, ◌≡◌, ◌∙◌, refl, sym, ap, false, some, List, [],
  ◌++◌, ◌==◌, if◌then◌else◌, length, replicate, get_elem?, flatten, arith, length-append,
  get_elem?-append_left, get_elem?-some, length-replicate, append-nil, Bool-cases, inl, inr, ==_iff,
  ◌≢◌,
}
use restic.Index.HashedArrayTree.{HashedArrayTree, index, double, new_batch, grow, alloc, ref}
use restic.Index.HashedArrayTree.Invariant.{
  width_pos, IsValid, flat, length-flatten, index-eq, ref-flat,
}
use restic.Index.HashedArrayTree.Doubling.{
  HasRoom-take, Grown, flatten-shape, new_batch-Grown, double-Doubled,
}

-- Positions and blocks: `n` blocks of `w` entries hold `size` entries, and the next position is
-- place `r` of block `q`.
module _ (n w size q r : ℕ) (split : q * w + r ≡ size) (below : r < w) (covers : size ≤ n * w) where
  all_taken : n ≤ w → q ≡ w → (n ≡ w) × (size ≡ w * w) × (r ≡ 0)
  all_taken few e =
      let whole : q * w ≡ w * w = ap (λ (k : ℕ). k * w) e in
      let least : w ≤ n = le_of_mul-le-mul_right {k = w} (omega arith) (omega arith) in
      let most : n * w ≤ w * w = mul-le-mul_right w few in omega arith

  block_ends : n * w < size + w → r ≡ 0 → n ≡ q
  block_ends tight e =
      let above : n < suc q = lt_of_mul-lt-mul_right w (omega arith) in
      let least : q < suc n = lt_of_mul-lt-mul_right w (omega arith) in omega arith

  inside_block : r ≢ 0 → size < n * w
  inside_block e =
      let lt : q < n = lt_of_mul-lt-mul_right w (omega arith) in
      let next : suc q * w ≤ n * w = mul-le-mul_right w lt in omega arith

module _ {A : Type 0} where
  grow_lem :
      (z : A) (h : HashedArrayTree A)
      → grow z h ≡ (
          if (index h h.size).0 == length h.block_list
          then new_batch z (double h) ((index h h.size).0 / 2) (index h h.size).1
          else new_batch z h (index h h.size).0 (index h h.size).1)
  unfolding grow
  grow_lem z h = refl

  Grown-double :
      (h g : HashedArrayTree A) → flat (double h) ≡ flat h → Grown (double h) g → Grown h g
  unfolding double
  Grown-double h g e r = record {
    room = r.room;
    size = r.size;
    extra = r.extra;
    kept = r.kept ∙ ap (λ t. t ++ r.extra) e;
  }

  -- Inside a block nothing is made.
  new_batch-inside :
      (z : A) (h : HashedArrayTree A) (idx r : ℕ) (v : IsValid h)
      → r ≢ 0
      → h.size < length v.full * 2 ^ h.mask_shift
      → Grown h (new_batch z h idx r)
  unfolding new_batch
  new_batch-inside z h idx r v e room =
      let same : (r == 0) ≡ false = ground arith in
      rw same (record {
        room = record {
          full = v.full;
          shape = v.shape;
          mask = v.mask;
          block_size = v.block_size;
          shift = v.shift;
          widths = v.widths;
          few = v.few;
          covers = room;
          tight = let t = v.tight in omega arith;
        };
        size = refl;
        extra = [];
        kept = sym (append-nil (flat h));
      })

  length-block_list :
      (h : HashedArrayTree A) (v : IsValid h) → length h.block_list ≡ 2 ^ h.mask_shift
  length-block_list h v =
      let few = v.few in
      ap length v.shape
      ∙ omega (
        arith,
        length-append v.full (replicate (2 ^ h.mask_shift - length v.full) []),
        length-replicate {A = List A} (2 ^ h.mask_shift - length v.full) [],
      )

  grow-within :
      (z : A) (h : HashedArrayTree A) (v : IsValid h) (q r : ℕ)
      → q * 2 ^ h.mask_shift + r ≡ h.size
      → r < 2 ^ h.mask_shift
      → q ≢ 2 ^ h.mask_shift
      → Grown h (new_batch z h q r)
  grow-within z h v q r split below ne =
      let w = 2 ^ h.mask_shift in
      elim (Bool-cases (r == 0)) [
        | inl e ↦
            let zero_r : r ≡ 0 = (==_iff r 0).0 e in
            let n : length v.full ≡ q =
              block_ends (length v.full) w h.size q r split below v.covers v.tight zero_r in
            rw zero_r (
              new_batch-Grown z h q
                (record {
                  full = v.full;
                  shape = v.shape;
                  mask = v.mask;
                  block_size = v.block_size;
                  shift = v.shift;
                  widths = v.widths;
                  place = let few = v.few in omega arith;
                  size = sym split ∙ omega (arith, ap (λ (k : ℕ). k * w) n);
                })
                (sym n))
        | inr e ↦
            let nonzero : r ≢ 0 = ground arith in
            new_batch-inside z h q r v nonzero
              (inside_block (length v.full) w h.size q r split below v.covers nonzero)
      ]

  grow-Grown : (z : A) (h : HashedArrayTree A) → IsValid h → Grown h (grow z h)
  grow-Grown z h v =
      let w = 2 ^ h.mask_shift in
      let q = h.size / w in
      let r = h.size % w in
      let split : q * w + r ≡ h.size = div-add-mod' h.size w in
      let below : r < w = mod-lt h.size (width_pos h.mask_shift) in
      let facts = all_taken (length v.full) w h.size q r split below v.covers v.few in
      rw (grow_lem z h, index-eq h h.size v.mask, length-block_list h v)
        (elim (Bool-cases (q == w)) [
          | inl e ↦
              let (n, s, zero_r) = facts ((==_iff q w).0 e) in
              let d = double-Doubled h v n s in
              rw (e, zero_r)
                (Grown-double h _ d.flat (
                  new_batch-Grown z (double h) (q / 2) d.ready
                    (ap (λ (k : ℕ). k / 2) ((==_iff q w).0 e) ∙ sym d.half)))
          | inr e ↦ rw e (grow-within z h v q r split below (ground arith))
        ])

  -- Alloc hands out the next position and keeps the invariant.
  pub alloc-IsValid :
      (z : A) (h : HashedArrayTree A)
      → IsValid h
      → IsValid (alloc z h).0 × ((alloc z h).0.size ≡ h.size + 1) × ((alloc z h).1 ≡ h.size)
  unfolding alloc
  alloc-IsValid z h v =
      let g = grow-Grown z h v in
      (HasRoom-take (grow z h) g.room, ap (λ (n : ℕ). n + 1) g.size, g.size)

  flat-alloc :
      (z : A) (h : HashedArrayTree A)
      → IsValid h
      → (xs : List A) × (flat (alloc z h).0 ≡ flat h ++ xs)
  unfolding alloc
  flat-alloc z h v = let g = grow-Grown z h v in (g.extra, g.kept)

  pub length-flat : (h : HashedArrayTree A) → IsValid h → h.size ≤ length (flat h)
  length-flat h v =
      let covers = v.covers in
      omega (
        arith,
        length-flatten (2 ^ h.mask_shift) v.full v.widths,
        ap length (ap flatten v.shape ∙ flatten-shape v.full (2 ^ h.mask_shift - length v.full)),
      )

  -- The entries handed out before stay what they are, through any doubling of the blocks.
  pub ref-alloc :
      (z : A) (h : HashedArrayTree A) (i : ℕ)
      → IsValid h
      → i < h.size
      → ref (alloc z h).0 i ≡ ref h i
  ref-alloc z h i v lt =
      let (valid, size, _) = alloc-IsValid z h v in
      let (xs, kept) = flat-alloc z h v in
      ref-flat (alloc z h).0 i valid (omega arith)
      ∙ ap (λ l. get_elem? l i) kept
      ∙ get_elem?-append_left (flat h) xs i (omega (arith, length-flat h v))
      ∙ sym (ref-flat h i v lt)

  pub ref-some :
      (h : HashedArrayTree A) (i : ℕ) → IsValid h → i < h.size → (e : A) × (ref h i ≡ some e)
  ref-some h i v lt =
      let (e, found) = get_elem?-some (flat h) i (omega (arith, length-flat h v)) in
      (e, ref-flat h i v lt ∙ found)
