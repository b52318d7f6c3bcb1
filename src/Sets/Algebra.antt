-- ===== src/Sets/Algebra.antt =====
-- Union, intersection and difference of the sets.
use restic.Prelude.{◌≡◌, ◌||◌, ◌&&◌, not, List, [], ◌∷◌, arith, if◌then◌else◌}
use restic.Prelude.Maps.{Key}
use restic.Sets.{has, insert, insert_all, merge, insert_common, intersect, insert_missing, sub}
use restic.Sets.Members.{has-insert}

module _ {ℓ} {K : Type ℓ} ⦃key : Key K⦄ where
  open key use {same, same_iff}

  has-insert_all : (k : K) (xs s : List K) → has k (insert_all xs s) ≡ (has k s || has k xs)
  unfolding insert_all has
  has-insert_all k [] s = ground arith
  has-insert_all k (x ∷ xs) s = ground (arith, has-insert x k s, has-insert_all k xs (insert x s))

  has-insert_common :
      (k : K) (xs other s : List K)
      → has k (insert_common xs other s) ≡ (has k s || has k xs && has k other)
  unfolding insert_common has
  has-insert_common k [] other s = ground arith
  has-insert_common k (x ∷ xs) other s = ground (
    arith,
    same_iff x k,
    has-insert x k s,
    has-insert_common k xs other (if has x other then insert x s else s),
  )

  has-insert_missing :
      (k : K) (xs other s : List K)
      → has k (insert_missing xs other s) ≡ (has k s || has k xs && not (has k other))
  unfolding insert_missing has
  has-insert_missing k [] other s = ground arith
  has-insert_missing k (x ∷ xs) other s = ground (
    arith,
    same_iff x k,
    has-insert x k s,
    has-insert_missing k xs other (if has x other then s else insert x s),
  )

  -- Merge, Intersect and Sub have as members those of either set, those of both, and those of the
  -- first set that are not in the second; Intersect whichever of the sets it goes through.
  pub has-operations :
      (s other : List K) (k : K)
      → (has k (merge s other) ≡ (has k s || has k other))
        × (has k (intersect s other) ≡ (has k s && has k other))
        × (has k (sub s other) ≡ (has k s && not (has k other)))
  unfolding merge intersect sub has
  has-operations s other k = (
    has-insert_all k other s,
    ground (arith, has-insert_common k other s [], has-insert_common k s other []),
    has-insert_missing k s other [],
  )
