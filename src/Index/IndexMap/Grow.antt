-- ===== src/Index/IndexMap/Grow.antt =====
-- grow puts every entry into its chain of the larger table and changes no item.
use native.Mathlib.Nat.{mod-lt, one-le-pow}
use restic.Prelude.{
  ℕ, zero, suc, ◌+◌, ◌^◌, ◌≤◌, ◌<◌, ◌≡◌, ◌∙◌, refl, sym, ap, subst, Option, none, some, List, ◌==◌,
  arith, length, set, get_elem?, length-set, ok, Bool-cases, inl, inr, ==_iff, ==_refl,
}
use restic.Prelude.Bits.{bit_and_mask}
use restic.Blob.{BlobId}
use restic.Index.HashedArrayTree.{HashedArrayTree, ref, put}
use restic.Index.HashedArrayTree.Invariant.{IsValid}
use restic.Index.HashedArrayTree.Growth.{ref-some}
use restic.Index.HashedArrayTree.Write.{put-IsValid, ref-put}
use restic.Index.IndexMap.{IndexEntry, bucket, hash, rehash}
use restic.Index.IndexMap.Chains.{item, item_at, last_with, SameBelow, resolve-ok, item_at-some}
use restic.Index.IndexMap.Content.{IsPartial, link, SameBelow-put}

pub bucket-ok :
    (buckets : List ℕ) (h i : ℕ) → get_elem? buckets h ≡ some i → bucket buckets h ≡ ok i
unfolding bucket
bucket-ok buckets h i e = ground arith

-- A table of a power of two many buckets has a bucket for every hash.
pub hash-lt : (sum : BlobId → ℕ) (n k : ℕ) (id : BlobId) → n ≡ 2 ^ k → hash sum n id < n
unfolding hash
hash-lt sum n k id e =
    rw (e, bit_and_mask k (sum id)) (mod-lt (sum id) (one-le-pow k 2 (omega arith)))

rehash-step :
    (sum : BlobId → ℕ) (rounds i h next : ℕ) (buckets : List ℕ) (bl : HashedArrayTree IndexEntry)
    (e : IndexEntry)
    → ref bl i ≡ some e
    → hash sum (length buckets) e.id ≡ h
    → get_elem? buckets h ≡ some next
    → rehash sum (suc rounds) i buckets bl
      ≡ rehash sum rounds (i + 1) (set buckets h i) (put bl i (record e { next = next }))
unfolding rehash
rehash-step sum rounds i h next buckets bl e found eh at_h =
    rw (resolve-ok bl i e found, eh, bucket-ok buckets h next at_h) refl

item_at-put :
    (bl : HashedArrayTree IndexEntry) (i j : ℕ) (e e' : IndexEntry)
    → IsValid bl
    → i < bl.size
    → j < bl.size
    → ref bl i ≡ some e
    → item e' ≡ item e
    → item_at (put bl i e') j ≡ item_at bl j
item_at-put bl i j e e' v lt lj found same = elim (Bool-cases (j == i)) [
  | inl here ↦
      let ji : j ≡ i = (==_iff j i).0 here in
      ap (item_at (put bl i e')) ji
      ∙ item_at-some (put bl i e') i e' (ref-put bl i i e' v lt lt ∙ rw (==_refl i) refl)
      ∙ ap some same
      ∙ sym (item_at-some bl i e found)
      ∙ ap (item_at bl) (sym ji)
  | inr other ↦
      ap (λ (o : Option IndexEntry). elim o [ none ↦ none | some x ↦ some (item x) ])
        (SameBelow-put bl i e' v lt j lj (ground arith))
]

module _ (sum : BlobId → ℕ) (n k : ℕ) (power : n ≡ 2 ^ k) where
  pub record Rehashed (i : ℕ) (buckets : List ℕ) (bl : HashedArrayTree IndexEntry) (rounds : ℕ)
      : Type 0 where
    pub buckets' : List ℕ
    pub bl' : HashedArrayTree IndexEntry
    pub made : rehash sum rounds i buckets bl ≡ ok (buckets', bl')
    pub width : length buckets' ≡ n
    pub size : bl'.size ≡ bl.size
    pub partial : IsPartial (hash sum n) bl.size buckets' bl'
    pub same : SameBelow bl' bl bl.size

  pub rehash-Rehashed :
      (rounds i : ℕ) (buckets : List ℕ) (bl : HashedArrayTree IndexEntry)
      → 1 ≤ i
      → i + rounds ≡ bl.size
      → length buckets ≡ n
      → IsPartial (hash sum n) i buckets bl
      → Rehashed i buckets bl rounds
  unfolding rehash
  rehash-Rehashed zero i buckets bl lo total width p = record {
    buckets' = buckets;
    bl' = bl;
    made = refl;
    width = width;
    size = refl;
    partial = subst (λ (m : ℕ). IsPartial (hash sum n) m buckets bl) (omega arith) p;
    same = λ j lj. refl;
  }
  rehash-Rehashed (suc rounds) i buckets bl lo total width p =
      let lt : i < bl.size = omega arith in
      let (e, found) = ref-some bl i p.valid lt in
      let h = hash sum n e.id in
      let next = last_with bl (λ id. hash sum n id == h) i in
      let e' : IndexEntry = record e { next = next } in
      let (_, size) = put-IsValid bl i e' p.valid lt in
      let r =
        rehash-Rehashed rounds (i + 1) (set buckets h i) (put bl i e') (omega arith) (omega arith)
          (length-set buckets h i ∙ width)
          (subst (λ (m : ℕ). IsPartial (hash sum n) m (set buckets h i) (put bl i e')) (omega arith)
            (link (hash sum n) i buckets bl p lo lt e' refl)) in
      record {
        buckets' = r.buckets';
        bl' = r.bl';
        made =
            rehash-step sum rounds i h next buckets bl e found
              (ap (λ (w : ℕ). hash sum w e.id) width)
              (p.heads h (omega (arith, hash-lt sum n k e.id power)))
            ∙ r.made;
        width = r.width;
        size = r.size ∙ size;
        partial = subst (λ (m : ℕ). IsPartial (hash sum n) m r.buckets' r.bl') size r.partial;
        same = λ j lj. r.same j (omega arith) ∙ item_at-put bl i j e e' p.valid lt lj found refl;
      }
