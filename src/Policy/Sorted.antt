-- ===== src/Policy/Sorted.antt =====
-- What sort.Stable does with Snapshots.Less.
use mathlib.Core.List.{Perm}
use mathlib.Core.List.Perm
use restic.Prelude.{
  ℕ, ◌≤◌, ◌≡◌, ◌∙◌, refl, ap, List, [], ◌∷◌, ◌==◌, ltb, if◌then◌else◌, arith, All, Bool-cases, inl,
  inr,
}
use restic.Policy.{Snapshot, insert_sorted, sort_stable}

-- No snapshot is newer than one before it.
unfoldable pub IsNewestFirst : List Snapshot → Type 0
IsNewestFirst [] = Unit
IsNewestFirst (x ∷ xs) = All (λ (y : Snapshot). y.time ≤ x.time) xs × IsNewestFirst xs

-- The snapshots that were made at a time.
unfoldable pub at_time : ℕ → List Snapshot → List Snapshot
at_time t [] = []
at_time t (x ∷ xs) = let rest = at_time t xs in if x.time == t then x ∷ rest else rest

-- A list in the order of Snapshots.Less: the newest first, and those of the same time in the
-- order that they had.
unfoldable pub IsSorted : List Snapshot → List Snapshot → Type 0
IsSorted list sorted = IsNewestFirst sorted × ((t : ℕ) → at_time t sorted ≡ at_time t list)

All-insert_sorted :
    (k : ℕ) (sn : Snapshot) (xs : List Snapshot)
    → sn.time ≤ k
    → All (λ (y : Snapshot). y.time ≤ k) xs
    → All (λ (y : Snapshot). y.time ≤ k) (insert_sorted sn xs)
unfolding insert_sorted
All-insert_sorted k sn [] le all = (le, tt)
All-insert_sorted k sn (x ∷ xs) le all = elim (Bool-cases (ltb sn.time x.time)) [
  | inl e ↦ rw e (all.0, All-insert_sorted k sn xs le all.1)
  | inr e ↦ rw e (le, all)
]

All-older :
    (j k : ℕ) (xs : List Snapshot)
    → j ≤ k
    → All (λ (y : Snapshot). y.time ≤ j) xs
    → All (λ (y : Snapshot). y.time ≤ k) xs
All-older j k [] le all = tt
All-older j k (x ∷ xs) le all = (let a = all.0 in omega arith, All-older j k xs le all.1)

insert_sorted-IsNewestFirst :
    (sn : Snapshot) (xs : List Snapshot) → IsNewestFirst xs → IsNewestFirst (insert_sorted sn xs)
unfolding insert_sorted IsNewestFirst
insert_sorted-IsNewestFirst sn [] h = (tt, tt)
insert_sorted-IsNewestFirst sn (x ∷ xs) h = elim (Bool-cases (ltb sn.time x.time)) [
  | inl e ↦
      rw e
        (All-insert_sorted x.time sn xs (ground arith) h.0, insert_sorted-IsNewestFirst sn xs h.1)
  | inr e ↦
      let le : x.time ≤ sn.time = ground arith in rw e ((le, All-older x.time sn.time xs le h.0), h)
]

at_time-insert_sorted :
    (t : ℕ) (sn : Snapshot) (xs : List Snapshot)
    → at_time t (insert_sorted sn xs) ≡ at_time t (sn ∷ xs)
unfolding insert_sorted at_time
at_time-insert_sorted t sn [] = refl
at_time-insert_sorted t sn (x ∷ xs) = ground (arith, at_time-insert_sorted t sn xs)

pub sort_stable-IsSorted : (xs : List Snapshot) → IsSorted xs (sort_stable xs)
unfolding sort_stable IsSorted IsNewestFirst at_time
sort_stable-IsSorted [] = (tt, λ t. refl)
sort_stable-IsSorted (x ∷ xs) =
    let (newest, same) = sort_stable-IsSorted xs in
    (
      insert_sorted-IsNewestFirst x (sort_stable xs) newest,
      λ t.
          at_time-insert_sorted t x (sort_stable xs)
          ∙ ap (λ (ys : List Snapshot). if x.time == t then x ∷ ys else ys) (same t),
    )

insert_sorted-Perm : (sn : Snapshot) (xs : List Snapshot) → Perm (insert_sorted sn xs) (sn ∷ xs)
unfolding insert_sorted
insert_sorted-Perm sn [] = Perm.refl (sn ∷ [])
insert_sorted-Perm sn (x ∷ xs) = elim (Bool-cases (ltb sn.time x.time)) [
  | inl e ↦ rw e (Perm.trans (Perm.cons x (insert_sorted-Perm sn xs)) (Perm.swap sn x xs))
  | inr e ↦ rw e (Perm.refl (sn ∷ x ∷ xs))
]

pub sort_stable-Perm : (xs : List Snapshot) → Perm (sort_stable xs) xs
unfolding sort_stable
sort_stable-Perm [] = Perm.nil
sort_stable-Perm (x ∷ xs) =
    Perm.trans (insert_sorted-Perm x (sort_stable xs)) (Perm.cons x (sort_stable-Perm xs))
