-- ===== src/Index/IndexMap/Content.antt =====
-- Linking one more position into its chain: the step that add and grow share.
use restic.Prelude.{
  ℕ, zero, suc, ◌≤◌, ◌<◌, ◌≡◌, ◌≢◌, ◌∙◌, refl, sym, ap, subst, Bool, some, List, ◌++◌, ◌==◌, arith,
  length, set, get_elem?, get_elem?-set_self, get_elem?-set_ne, length-set, Bool-cases, inl, inr,
  ==_iff, ==_refl,
}
use restic.Blob.{BlobId}
use restic.Index.HashedArrayTree.{HashedArrayTree, ref, put}
use restic.Index.HashedArrayTree.Invariant.{IsValid}
use restic.Index.HashedArrayTree.Write.{put-IsValid, ref-put}
use restic.Index.IndexMap.{IndexEntry}
use restic.Index.IndexMap.Chains.{
  item_at, listed, items_below, last_with, SameBelow, last_with-same, item_at-some, chosen,
}

-- The chains are right for the positions below `i`.
pub record IsPartial (bucket_of : BlobId → ℕ) (i : ℕ) (buckets : List ℕ)
    (bl : HashedArrayTree IndexEntry) : Type 0 where
  pub valid : IsValid bl
  pub within : i ≤ bl.size
  pub nexts :
      (j : ℕ) (e : IndexEntry)
      → 1 ≤ j
      → j < i
      → ref bl j ≡ some e
      → e.next ≡ last_with bl (λ id. bucket_of id == bucket_of e.id) j
  pub heads :
      (b : ℕ)
      → b < length buckets
      → get_elem? buckets b ≡ some (last_with bl (λ id. bucket_of id == b) i)

pub last_with-step :
    (bl : HashedArrayTree IndexEntry) (test : BlobId → Bool) (n : ℕ)
    → 1 ≤ n
    → last_with bl test (suc n) ≡ chosen (item_at bl n) test n (last_with bl test n)
unfolding last_with
last_with-step bl test zero h = absurd (omega arith)
last_with-step bl test (suc n) h = refl

pub items_below-step :
    (bl : HashedArrayTree IndexEntry) (n : ℕ)
    → 1 ≤ n
    → items_below bl (suc n) ≡ items_below bl n ++ listed (item_at bl n)
unfolding items_below
items_below-step bl zero h = absurd (omega arith)
items_below-step bl (suc n) h = refl

pub SameBelow-put :
    (bl : HashedArrayTree IndexEntry) (i : ℕ) (e : IndexEntry)
    → IsValid bl
    → i < bl.size
    → (j : ℕ) → j < bl.size
    → i ≢ j
    → ref (put bl i e) j ≡ ref bl j
SameBelow-put bl i e v lt j lj ne = ref-put bl i j e v lt lj ∙ ground arith

some-injective : (a b : IndexEntry) → some a ≡ some b → a ≡ b
some-injective a b h = cc

module _ (bucket_of : BlobId → ℕ) (i : ℕ) (buckets : List ℕ) (bl : HashedArrayTree IndexEntry)
    (p : IsPartial bucket_of i buckets bl) (lo : 1 ≤ i) (lt : i < bl.size) (e : IndexEntry)
    (right : e.next ≡ last_with bl (λ id. bucket_of id == bucket_of e.id) i) where
  abbrev pub linked_list : HashedArrayTree IndexEntry
  linked_list = put bl i e

  pub old : (j : ℕ) → j < i → ref linked_list j ≡ ref bl j
  old j lj = SameBelow-put bl i e p.valid lt j (omega arith) (omega arith)

  pub new : ref linked_list i ≡ some e
  new = ref-put bl i i e p.valid lt lt ∙ rw (==_refl i) refl

  pub same : SameBelow linked_list bl i
  same j lj = ground (arith, old j lj)

  pub link_nexts :
      (j : ℕ) (x : IndexEntry)
      → 1 ≤ j
      → j < suc i
      → ref linked_list j ≡ some x
      → x.next ≡ last_with linked_list (λ id. bucket_of id == bucket_of x.id) j
  link_nexts j x lj lji found = elim (Bool-cases (j == i)) [
    | inl here ↦
        let ji : j ≡ i = (==_iff j i).0 here in
        let ex : e ≡ x = some-injective e x (sym new ∙ ap (ref linked_list) (sym ji) ∙ found) in
        subst
          (λ (y : IndexEntry).
            y.next ≡ last_with linked_list (λ id. bucket_of id == bucket_of y.id) j)
          ex
          (right
            ∙ sym (last_with-same linked_list bl (λ id. bucket_of id == bucket_of e.id) i same)
            ∙ ap (last_with linked_list (λ id. bucket_of id == bucket_of e.id)) (sym ji))
    | inr before ↦
        let less : j < i = ground arith in
        p.nexts j x lj less (sym (old j less) ∙ found)
        ∙ sym (
            last_with-same linked_list bl (λ id. bucket_of id == bucket_of x.id) j
              (λ k lk. same k (omega arith)))
  ]

  pub link_heads :
      (b : ℕ)
      → b < length (set buckets (bucket_of e.id) i)
      → get_elem? (set buckets (bucket_of e.id) i) b
        ≡ some (last_with linked_list (λ id. bucket_of id == b) (suc i))
  link_heads b lb =
      let lb' : b < length buckets = omega (arith, length-set buckets (bucket_of e.id) i) in
      rw
        (
          last_with-step linked_list (λ id. bucket_of id == b) i lo,
          item_at-some linked_list i e new,
        )
        (elim (Bool-cases (bucket_of e.id == b)) [
          | inl here ↦ rw (here, (==_iff _ _).0 here) (get_elem?-set_self buckets b i lb')
          | inr other ↦
              rw (other, last_with-same linked_list bl (λ id. bucket_of id == b) i same)
                (get_elem?-set_ne buckets (bucket_of e.id) b i (ground arith) ∙ p.heads b lb')
        ])

  pub link : IsPartial bucket_of (suc i) (set buckets (bucket_of e.id) i) linked_list
  link =
      let (v, size) = put-IsValid bl i e p.valid lt in
      record { valid = v; within = omega arith; nexts = link_nexts; heads = link_heads }
