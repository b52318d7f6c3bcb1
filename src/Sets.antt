-- ===== src/Sets.antt =====
-- internal/restic/idset.go and blob_set.go: sets of IDs and of blob handles. Both are maps to
-- struct{}, and a set is the list of its members here, without repetition.
pub mod Members
pub mod Algebra
use restic.Prelude.{
  ℕ, ◌≡◌, Bool, true, false, ◌||◌, not, List, [], ◌∷◌, if◌then◌else◌, length, ltb, ◌==◌,
}
use restic.Prelude.Maps.{Key}

module _ {ℓ} {K : Type ℓ} ⦃key : Key K⦄ where
  open key use {same, same_iff}

  unfoldable pub has : K → List K → Bool
  has k [] = false
  has k (x ∷ xs) = if same x k then true else has k xs

  unfoldable pub insert : K → List K → List K
  insert k [] = k ∷ []
  insert k (x ∷ xs) = if same x k then x ∷ xs else x ∷ insert k xs

  unfoldable pub delete : K → List K → List K
  delete k [] = []
  delete k (x ∷ xs) = if same x k then delete k xs else x ∷ delete k xs

  insert_all : List K → List K → List K
  insert_all [] s = s
  insert_all (x ∷ xs) s = insert_all xs (insert x s)

  -- NewIDSet and NewBlobSet
  unfoldable pub new_set : List K → List K
  unfolding insert_all
  new_set xs = insert_all xs []

  -- Merge
  unfoldable pub merge : List K → List K → List K
  unfolding insert_all
  merge s other = insert_all other s

  all_in : List K → List K → Bool
  all_in [] other = true
  all_in (x ∷ xs) other = if has x other then all_in xs other else false

  unfoldable pub equals : List K → List K → Bool
  unfolding all_in
  equals s other = if not (length s == length other) then false else all_in s other

  insert_common : List K → List K → List K → List K
  insert_common [] set2 result = result
  insert_common (x ∷ set1) set2 result =
      insert_common set1 set2 (if has x set2 then insert x result else result)

  unfoldable pub intersect : List K → List K → List K
  unfolding insert_common
  intersect s other =
      if ltb (length other) (length s) then insert_common other s [] else insert_common s other []

  insert_missing : List K → List K → List K → List K
  insert_missing [] other result = result
  insert_missing (x ∷ s) other result =
      insert_missing s other (if has x other then result else insert x result)

  -- Sub
  unfoldable pub sub : List K → List K → List K
  unfolding insert_missing
  sub s other = insert_missing s other []
