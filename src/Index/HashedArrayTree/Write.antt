-- ===== src/Index/HashedArrayTree/Write.antt =====
-- A write through a pointer changes the entry at its position, and no other.
use native.Mathlib.Nat.{div-add-mod', mod-lt}
use restic.Prelude.{
  ℕ, zero, suc, ◌+◌, ◌-◌, ◌*◌, ◌/◌, ◌%◌, ◌^◌, ◌<◌, ◌≡◌, ◌∙◌, refl, sym, ap, ap₂, some, List, [],
  ◌∷◌, ◌++◌, ◌==◌, if◌then◌else◌, length, replicate, set, get_elem?, flatten, All, arith,
  get_elem?-set_self, get_elem?-set_ne, length-set, set-append_left, set-append_right, Bool-cases,
  inl, inr, ==_iff,
}
use restic.Index.HashedArrayTree.{HashedArrayTree, index, set2, put, ref}
use restic.Index.HashedArrayTree.Invariant.{
  width_pos, in_block, HasWidth, IsValid, flat, index-eq, ref-flat,
}
use restic.Index.HashedArrayTree.Growth.{length-flat}

module _ {A : Type 0} where
  -- What a write does to blocks of equal width.
  record Written (w : ℕ) (xs rest : List (List A)) (idx sub_idx : ℕ) (e : A) : Type 0 where
    blocks : List (List A)
    made : set2 (xs ++ rest) idx sub_idx e ≡ blocks ++ rest
    widths : All (HasWidth w) blocks
    count : length blocks ≡ length xs
    flat : flatten (blocks ++ rest) ≡ set (flatten (xs ++ rest)) (idx * w + sub_idx) e

  set2-skip :
      (xs : List (List A)) (x : List A) (idx sub_idx : ℕ) (e : A)
      → set2 (x ∷ xs) (suc idx) sub_idx e ≡ x ∷ set2 xs idx sub_idx e
  unfolding set2
  set2-skip xs x idx sub_idx e = ground arith

  set2-Written :
      (w : ℕ) (xs rest : List (List A)) (idx sub_idx : ℕ) (e : A)
      → All (HasWidth w) xs
      → idx < length xs
      → sub_idx < w
      → Written w xs rest idx sub_idx e
  unfolding set2
  set2-Written w [] rest idx sub_idx e h hi hs = absurd (omega arith)
  set2-Written w (x ∷ xs) rest zero sub_idx e h hi hs =
      let wx = h.0 in
      record {
        blocks = set x sub_idx e ∷ xs;
        made = refl;
        widths = (length-set x sub_idx e ∙ wx, h.1);
        count = refl;
        flat =
            sym (set-append_left x (flatten (xs ++ rest)) sub_idx e (omega arith))
            ∙ ap (λ (i : ℕ). set (x ++ flatten (xs ++ rest)) i e) (omega arith);
      }
  set2-Written w (x ∷ xs) rest (suc idx) sub_idx e h hi hs =
      let wx = h.0 in
      let r = set2-Written w xs rest idx sub_idx e h.1 (omega arith) hs in
      record {
        blocks = x ∷ r.blocks;
        made = set2-skip (xs ++ rest) x idx sub_idx e ∙ ap (λ t. x ∷ t) r.made;
        widths = (wx, r.widths);
        count = ap suc r.count;
        flat =
            ap (λ t. x ++ t) r.flat
            ∙ sym (
                set-append_right x (flatten (xs ++ rest)) (suc idx * w + sub_idx)
                  (idx * w + sub_idx) e (omega arith));
      }

  put_lem :
      (h : HashedArrayTree A) (pos : ℕ) (e : A)
      → put h pos e ≡ record h { block_list = set2 h.block_list (index h pos).0 (index h pos).1 e }
  unfolding put
  put_lem h pos e = refl

  record PutAt (h g : HashedArrayTree A) (pos : ℕ) (e : A) : Type 0 where
    valid : IsValid g
    size : g.size ≡ h.size
    flat : flat g ≡ set (flat h) pos e

  put-PutAt :
      (h : HashedArrayTree A) (pos : ℕ) (e : A)
      → IsValid h
      → pos < h.size
      → PutAt h (put h pos e) pos e
  put-PutAt h pos e v lt =
      let w = 2 ^ h.mask_shift in
      let few = v.few in
      let covers = v.covers in
      let rest : List (List A) = replicate (w - length v.full) [] in
      let r =
        set2-Written w v.full rest (pos / w) (pos % w) e v.widths
          (in_block (length v.full) w pos (width_pos h.mask_shift) (omega arith))
          (mod-lt pos (width_pos h.mask_shift)) in
      let made : set2 h.block_list (pos / w) (pos % w) e ≡ r.blocks ++ rest =
        ap (λ l. set2 l (pos / w) (pos % w) e) v.shape ∙ r.made in
      rw (put_lem h pos e, index-eq h pos v.mask)
        (record {
          valid = record {
            full = r.blocks;
            shape = made ∙ ap (λ (n : ℕ). r.blocks ++ replicate (w - n) []) (sym r.count);
            mask = v.mask;
            block_size = v.block_size;
            shift = v.shift;
            widths = r.widths;
            few = let n = r.count in omega arith;
            covers = let n = r.count in omega (arith, ap (λ (k : ℕ). k * w) n);
            tight = let n = r.count in let t = v.tight in omega (arith, ap (λ (k : ℕ). k * w) n);
          };
          size = refl;
          flat =
              ap flatten made
              ∙ r.flat
              ∙ ap₂ (λ (l : List A) (i : ℕ). set l i e) (sym (ap flatten v.shape))
                  (div-add-mod' pos w);
        })

  pub put-IsValid :
      (h : HashedArrayTree A) (pos : ℕ) (e : A)
      → IsValid h
      → pos < h.size
      → IsValid (put h pos e) × ((put h pos e).size ≡ h.size)
  put-IsValid h pos e v lt = let r = put-PutAt h pos e v lt in (r.valid, r.size)

  -- Reading after a write: the new entry at its position, the old one at any other.
  pub ref-put :
      (h : HashedArrayTree A) (pos i : ℕ) (e : A)
      → IsValid h
      → pos < h.size
      → i < h.size
      → ref (put h pos e) i ≡ (if pos == i then some e else ref h i)
  ref-put h pos i e v lt li =
      let r = put-PutAt h pos e v lt in
      let size = r.size in
      ref-flat (put h pos e) i r.valid (omega arith)
      ∙ ap (λ l. get_elem? l i) r.flat
      ∙ elim (Bool-cases (pos == i)) [
        | inl same ↦
            let eq : pos ≡ i = (==_iff pos i).0 same in
            rw (same, ← eq) (get_elem?-set_self (flat h) pos e (omega (arith, length-flat h v)))
        | inr other ↦
            rw other (get_elem?-set_ne (flat h) pos i e (ground arith) ∙ sym (ref-flat h i v li))
      ]
