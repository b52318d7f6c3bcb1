-- ===== src/Index/IndexMap/Prepare.antt =====
-- The maps that add can be called on, and the table that it makes ready for one more entry.
use native.Mathlib.Nat.{pow-suc}
use restic.Prelude.{
  ℕ, zero, suc, ◌+◌, ◌-◌, ◌*◌, ◌^◌, ◌≤◌, ◌≡◌, ◌∙◌, refl, sym, ap, subst, true, false, Bool, List,
  [], ◌==◌, leb, if◌then◌else◌, arith, length, replicate, length-replicate, get_elem?-replicate,
  Result, ok, inl, inr, ◌⊎◌,
}
use restic.Blob.{BlobId}
use restic.Index.HashedArrayTree.{HashedArrayTree, new_hat, alloc}
use restic.Index.HashedArrayTree.Invariant.{IsValid, new_hat-IsValid}
use restic.Index.HashedArrayTree.Growth.{alloc-IsValid}
use restic.Index.IndexMap.{
  IndexEntry, zero_entry, IndexMap, empty_map, Panic, hash, grow, init, prepare,
}
use restic.Index.IndexMap.Chains.{Item, items_below, last_with, items_below-same}
use restic.Index.IndexMap.Content.{IsPartial}
use restic.Index.IndexMap.Grow.{rehash-Rehashed}

-- The items of a map, in the order in which they were added.
abbrev pub contents : IndexMap → List Item
contents m = items_below m.block_list m.block_list.size

new_hat-size : (new_hat {A = IndexEntry}).size ≡ 0
unfolding new_hat
new_hat-size = refl

pub record IsBuilt (m : IndexMap) : Type 0 where
  pub k : ℕ
  pub power : length m.buckets ≡ 2 ^ k
  pub chains : IsPartial (hash m.mh (length m.buckets)) m.block_list.size m.buckets m.block_list
  pub count : m.block_list.size ≡ suc m.numentries

pub record Prepared (m : IndexMap) (made : Result Panic IndexMap) : Type 0 where
  pub after : IndexMap
  pub succeeds : made ≡ ok after
  pub built : IsBuilt after
  pub kept : contents after ≡ contents m
  pub number : after.numentries ≡ m.numentries

fresh-IsPartial :
    (bucket_of : BlobId → ℕ) (n : ℕ) (bl : HashedArrayTree IndexEntry)
    → IsValid bl
    → 1 ≤ bl.size
    → IsPartial bucket_of 1 (replicate n 0) bl
unfolding last_with
fresh-IsPartial bucket_of n bl v lo = record {
  valid = v;
  within = lo;
  nexts = λ j e a b found. absurd (omega arith);
  heads = λ b lb. get_elem?-replicate n b 0 (omega (arith, length-replicate n zero));
}

init-IsBuilt : (m : IndexMap) → m.numentries ≡ 0 → IsBuilt (init m)
unfolding init
init-IsBuilt m none_yet =
    let (valid, size, _) = alloc-IsValid zero_entry (new_hat {A = IndexEntry}) new_hat-IsValid in
    let size_one : (alloc zero_entry (new_hat {A = IndexEntry})).0.size ≡ 1 =
      size ∙ ap (λ (j : ℕ). j + 1) new_hat-size in
    record {
      k = 6;
      power = refl;
      chains =
          subst
            (λ (i : ℕ).
              IsPartial (hash m.mh 64) i (replicate 64 0)
                (alloc zero_entry (new_hat {A = IndexEntry})).0)
            (sym size_one)
            (fresh-IsPartial (hash m.mh 64) 64 (alloc zero_entry (new_hat {A = IndexEntry})).0 valid
              (omega arith));
      count = size_one ∙ ap suc (sym none_yet);
    }

init-number : (m : IndexMap) → (init m).numentries ≡ m.numentries
unfolding init
init-number m = refl

init-contents : (m : IndexMap) → contents (init m) ≡ []
unfolding init items_below
init-contents m =
    let (valid, size, _) = alloc-IsValid zero_entry (new_hat {A = IndexEntry}) new_hat-IsValid in
    ap (items_below (alloc zero_entry (new_hat {A = IndexEntry})).0)
      (size ∙ ap (λ (j : ℕ). j + 1) new_hat-size)

grow-Prepared : (m : IndexMap) → IsBuilt m → Prepared m (grow m)
unfolding grow
grow-Prepared m b =
    let n : ℕ = 2 * length m.buckets in
    let wide : length (replicate n zero) ≡ n = length-replicate n zero in
    let power : n ≡ 2 ^ (suc b.k) = omega (arith, b.power, pow-suc 2 b.k) in
    let r =
      rehash-Rehashed m.mh n (suc b.k) power (m.block_list.size - 1) 1 (replicate n 0) m.block_list
        (omega arith) (omega (arith, b.count)) wide
        (fresh-IsPartial (hash m.mh n) n m.block_list b.chains.valid (omega (arith, b.count))) in
    record {
      after = record m { buckets = r.buckets'; block_list = r.bl' };
      succeeds = rw r.made refl;
      built = record {
        k = suc b.k;
        power = r.width ∙ power;
        chains =
            subst (λ (w : ℕ). IsPartial (hash m.mh w) r.bl'.size r.buckets' r.bl') (sym r.width)
              (subst (λ (i : ℕ). IsPartial (hash m.mh n) i r.buckets' r.bl') (sym r.size)
                r.partial);
        count = r.size ∙ b.count;
      };
      kept =
          ap (items_below r.bl') r.size
          ∙ items_below-same r.bl' m.block_list m.block_list.size r.same;
      number = refl;
    }

-- Every map that add can be called on: the zero value, or one that add has built.
unfoldable pub IsMap : IndexMap → Type 0
IsMap m = (m ≡ empty_map m.mh) ⊎ IsBuilt m × (1 ≤ m.numentries)

prepare-init : (m : IndexMap) → m.numentries ≡ 0 → prepare m ≡ ok (init m)
unfolding prepare
prepare-init m e = rw (e) refl

prepare-switch :
    (m : IndexMap)
    → 1 ≤ m.numentries
    → prepare m ≡ (if leb (4 * length m.buckets) m.numentries then grow m else ok m)
unfolding prepare
prepare-switch m lo =
    let some_yet : (m.numentries == 0) ≡ false = ground arith in rw (some_yet) refl

switch-Prepared :
    (m : IndexMap) (full : Bool) → IsBuilt m → Prepared m (if full then grow m else ok m)
switch-Prepared m true b = grow-Prepared m b
switch-Prepared m false b = record {
  after = m;
  succeeds = refl;
  built = b;
  kept = refl;
  number = refl;
}

empty-contents : (mh : BlobId → ℕ) → contents (empty_map mh) ≡ []
unfolding items_below
empty-contents mh = refl

pub prepare-Prepared : (m : IndexMap) → IsMap m → Prepared m (prepare m)
unfolding IsMap
prepare-Prepared m (inl e) =
    let none_yet : m.numentries ≡ 0 = ap (λ (x : IndexMap). x.numentries) e in
    record {
      after = init m;
      succeeds = prepare-init m none_yet;
      built = init-IsBuilt m none_yet;
      kept =
          init-contents m ∙ sym (empty-contents m.mh) ∙ ap (λ (x : IndexMap). contents x) (sym e);
      number = init-number m;
    }
prepare-Prepared m (inr (b, lo)) =
    subst (Prepared m) (sym (prepare-switch m lo))
      (switch-Prepared m (leb (4 * length m.buckets) m.numentries) b)
