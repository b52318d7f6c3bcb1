-- ===== src/Index/IndexMap/Add.antt =====
-- add succeeds on every map that add has built, and puts one item at the end of its items.
use restic.Prelude.{
  ℕ, suc, ◌+◌, ◌≤◌, ◌<◌, ◌≡◌, ◌∙◌, refl, sym, ap, ap₂, subst, Option, none, some, List, [], ◌∷◌,
  ◌++◌, ◌==◌, arith, length, set, length-set, ok, inr,
}
use restic.Blob.{BlobId}
use restic.Index.HashedArrayTree.{HashedArrayTree, alloc, put}
use restic.Index.HashedArrayTree.Growth.{alloc-IsValid, ref-alloc}
use restic.Index.HashedArrayTree.Write.{put-IsValid}
use restic.Index.IndexMap.{IndexEntry, zero_entry, IndexMap, hash, insert, add}
use restic.Index.IndexMap.Chains.{
  Item, item, listed, items_below, last_with, SameBelow, items_below-same, last_with-same,
  item_at-some,
}
use restic.Index.IndexMap.Content.{IsPartial, link, same, new, items_below-step}
use restic.Index.IndexMap.Grow.{bucket-ok, hash-lt}
use restic.Index.IndexMap.Prepare.{contents, IsBuilt, IsMap, prepare-Prepared}

-- The entry and the map that insert makes.
abbrev entry_for : IndexMap → BlobId → ℕ → ℕ → ℕ → ℕ → IndexEntry
entry_for m id pack_idx offset len uncompressed = record {
  id = id;
  next =
      last_with m.block_list
        (λ x. hash m.mh (length m.buckets) x == hash m.mh (length m.buckets) id) m.block_list.size;
  pack_index = pack_idx;
  offset = offset;
  len = len;
  uncompressed = uncompressed;
}

abbrev inserted : IndexMap → IndexEntry → IndexMap
inserted m e = record m {
  buckets = set m.buckets (hash m.mh (length m.buckets) e.id) m.block_list.size;
  numentries = m.numentries + 1;
  block_list = put (alloc zero_entry m.block_list).0 m.block_list.size e;
}

insert-step :
    (m : IndexMap) (id : BlobId) (pack_idx offset len uncompressed : ℕ)
    → IsBuilt m
    → insert m id pack_idx offset len uncompressed
      ≡ ok (inserted m (entry_for m id pack_idx offset len uncompressed))
unfolding insert
insert-step m id pack_idx offset len uncompressed b =
    let (valid, size, idx) = alloc-IsValid zero_entry m.block_list b.chains.valid in
    let h : ℕ = hash m.mh (length m.buckets) id in
    let head = b.chains.heads h (hash-lt m.mh (length m.buckets) b.k id b.power) in
    rw (bucket-ok m.buckets h _ head, idx) refl

alloc-same :
    (m : IndexMap)
    → IsBuilt m
    → SameBelow (alloc zero_entry m.block_list).0 m.block_list m.block_list.size
alloc-same m b i lt =
    ap (λ (o : Option IndexEntry). elim o [ none ↦ none | some x ↦ some (item x) ])
      (ref-alloc zero_entry m.block_list i b.chains.valid lt)

alloc-IsPartial :
    (m : IndexMap)
    → IsBuilt m
    → IsPartial
        (hash m.mh (length m.buckets))
        m.block_list.size
        m.buckets
        (alloc zero_entry m.block_list).0
alloc-IsPartial m b =
    let (valid, size, idx) = alloc-IsValid zero_entry m.block_list b.chains.valid in
    let bl' : HashedArrayTree IndexEntry = (alloc zero_entry m.block_list).0 in
    record {
      valid = valid;
      within = omega arith;
      nexts = λ j e a lt found.
          b.chains.nexts j e a lt
            (sym (ref-alloc zero_entry m.block_list j b.chains.valid lt) ∙ found)
          ∙ sym (last_with-same bl' m.block_list _ j (λ i li. alloc-same m b i (omega arith)));
      heads = λ h lh.
          b.chains.heads h lh
          ∙ ap some (sym (last_with-same bl' m.block_list _ m.block_list.size (alloc-same m b)));
    }

inserted-IsBuilt :
    (m : IndexMap) (e : IndexEntry)
    → IsBuilt m
    → e.next
      ≡ last_with m.block_list
          (λ x. hash m.mh (length m.buckets) x == hash m.mh (length m.buckets) e.id)
          m.block_list.size
    → IsBuilt (inserted m e) × (contents (inserted m e) ≡ contents m ++ item e ∷ [])
inserted-IsBuilt m e b right =
    let n : ℕ = length m.buckets in
    let (valid, size, idx) = alloc-IsValid zero_entry m.block_list b.chains.valid in
    let bl' : HashedArrayTree IndexEntry = (alloc zero_entry m.block_list).0 in
    let lo : 1 ≤ m.block_list.size = omega (arith, b.count) in
    let lt : m.block_list.size < bl'.size = omega arith in
    let right' =
      right
      ∙ sym (
          last_with-same bl' m.block_list (λ x. hash m.mh n x == hash m.mh n e.id) m.block_list.size
            (alloc-same m b)) in
    let p = alloc-IsPartial m b in
    let linked = link (hash m.mh n) m.block_list.size m.buckets bl' p lo lt e right' in
    let kept = same (hash m.mh n) m.block_list.size m.buckets bl' p lo lt e right' in
    let (_, size') = put-IsValid bl' m.block_list.size e valid lt in
    let total : suc m.block_list.size ≡ (put bl' m.block_list.size e).size = omega arith in
    let wide = length-set m.buckets (hash m.mh n e.id) m.block_list.size in
    (
      record {
        k = b.k;
        power = wide ∙ b.power;
        chains =
            subst
              (λ (w : ℕ).
                IsPartial (hash m.mh w) (inserted m e).block_list.size (inserted m e).buckets
                  (inserted m e).block_list)
              (sym wide)
              (subst
                (λ (i : ℕ).
                  IsPartial (hash m.mh n) i (inserted m e).buckets (inserted m e).block_list)
                total linked);
        count = omega (arith, b.count);
      },
      ap (items_below (inserted m e).block_list) (sym total)
          ∙ items_below-step (inserted m e).block_list m.block_list.size lo
          ∙ ap₂ (λ (xs : List Item) (o : Option Item). xs ++ listed o)
              (items_below-same (inserted m e).block_list bl' m.block_list.size kept
                ∙ items_below-same bl' m.block_list m.block_list.size (alloc-same m b))
              (item_at-some (inserted m e).block_list m.block_list.size e
                (new (hash m.mh n) m.block_list.size m.buckets bl' p lo lt e right')),
    )

-- add succeeds on every map it can be called on. The map stays one that add has built, counts
-- one entry more, and its items are those of before, in their order, with the new one at the end.
pub add-IsMap :
    (m : IndexMap) (id : BlobId) (pack_idx offset len uncompressed : ℕ)
    → IsMap m
    → (m' : IndexMap) × (add m id pack_idx offset len uncompressed ≡ ok m')
      × IsMap m'
      × (m'.numentries ≡ m.numentries + 1)
      × (contents m'
          ≡ contents m
            ++ record {
              id = id;
              pack_index = pack_idx;
              offset = offset;
              len = len;
              uncompressed = uncompressed;
            }
              ∷ [])
unfolding add IsMap
add-IsMap m id pack_idx offset len uncompressed h =
    let r = prepare-Prepared m h in
    let e : IndexEntry = entry_for r.after id pack_idx offset len uncompressed in
    let (built, extended) = inserted-IsBuilt r.after e r.built refl in
    let number : r.after.numentries + 1 ≡ m.numentries + 1 = ap (λ (k : ℕ). k + 1) r.number in
    (
      inserted r.after e,
      rw (r.succeeds) (insert-step r.after id pack_idx offset len uncompressed r.built),
      inr (built, omega arith),
      number,
      extended ∙ ap (λ (xs : List Item). xs ++ item e ∷ []) r.kept,
    )
