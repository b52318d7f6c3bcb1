-- ===== src/Sets/Members.antt =====
-- What the sets have as members after each operation.
use restic.Prelude.{
  suc, ◌≤◌, ◌≡◌, ◌∙◌, ◌↔◌, refl, sym, ap, true, false, ◌||◌, List, [], ◌∷◌, arith, if◌then◌else◌,
  length, Bool-cases, inl, inr,
}
use restic.Prelude.Maps.{Key}
use restic.Sets.{has, insert, delete, all_in, equals}

module _ {ℓ} {K : Type ℓ} ⦃key : Key K⦄ where
  open key use {same, same_iff}

  pub has-insert : (k j : K) (s : List K) → has j (insert k s) ≡ (same k j || has j s)
  unfolding has insert
  has-insert k j [] = ground arith
  has-insert k j (x ∷ s) =
      ground (arith, same_iff k j, same_iff x k, same_iff x j, has-insert k j s)

  pub has-delete :
      (k j : K) (s : List K) → has j (delete k s) ≡ (if same k j then false else has j s)
  unfolding has delete
  has-delete k j [] = ground arith
  has-delete k j (x ∷ s) =
      ground (arith, same_iff k j, same_iff x k, same_iff x j, has-delete k j s)

  -- A list without repetition, as the map's keys are.
  abbrev pub IsUnique : List K → Type 0
  IsUnique [] = Unit
  IsUnique (x ∷ xs) = (has x xs ≡ false) × IsUnique xs

  delete_absent : (x : K) (s : List K) → has x s ≡ false → delete x s ≡ s
  unfolding has delete
  delete_absent x [] h = refl
  delete_absent x (y ∷ s) h = ground (arith, delete_absent x s)

  length-delete :
      (x : K) (s : List K) → IsUnique s → has x s ≡ true → suc (length (delete x s)) ≡ length s
  unfolding has delete
  length-delete x [] unique h = ground arith
  length-delete x (y ∷ s) unique h = elim (Bool-cases (same y x)) [
    | inl e ↦
        let gone : delete x s ≡ s =
          delete_absent x s (ap (λ (z : K). has z s) (sym ((same_iff y x).0 e)) ∙ unique.0) in
        rw e (ap (λ (zs : List K). suc (length zs)) gone)
    | inr e ↦ rw e (ap suc (length-delete x s unique.1 (ground arith)))
  ]

  IsUnique-delete : (x : K) (s : List K) → IsUnique s → IsUnique (delete x s)
  unfolding delete
  IsUnique-delete x [] unique = tt
  IsUnique-delete x (y ∷ s) unique = elim (Bool-cases (same y x)) [
    | inl e ↦ rw e (IsUnique-delete x s unique.1)
    | inr e ↦ rw e (has-delete x y s ∙ ground (arith, unique.0), IsUnique-delete x s unique.1)
  ]

  pub IsUnique-insert : (x : K) (s : List K) → IsUnique s → IsUnique (insert x s)
  unfolding insert has
  IsUnique-insert x [] unique = (refl, tt)
  IsUnique-insert x (y ∷ s) unique = elim (Bool-cases (same y x)) [
    | inl e ↦ rw e unique
    | inr e ↦ rw e (
      has-insert x y s ∙ ground (arith, unique.0, same_iff x y, same_iff y x),
      IsUnique-insert x s unique.1,
    )
  ]

  all_in-delete :
      (x : K) (xs other : List K)
      → has x xs ≡ false
      → all_in xs other ≡ true
      → all_in xs (delete x other) ≡ true
  unfolding all_in has
  all_in-delete x [] other new h = refl
  all_in-delete x (y ∷ xs) other new h =
      ground (arith, has-delete x y other, same_iff x y, same_iff y x, all_in-delete x xs other)

  length-all_in :
      (s other : List K)
      → IsUnique s
      → IsUnique other
      → all_in s other ≡ true
      → length s ≤ length other
  unfolding all_in
  length-all_in [] other us uo h = omega arith
  length-all_in (x ∷ s) other us uo h =
      let here : has x other ≡ true = ground arith in
      let rest : all_in s other ≡ true = ground arith in
      omega (
        arith,
        length-delete x other uo here,
        length-all_in s (delete x other) us.1 (IsUnique-delete x other uo)
            (all_in-delete x s other us.0 rest),
      )

  -- As many members, all of them in the other set, leave no other member there.
  all_in_complete :
      (s other : List K) (k : K)
      → IsUnique s
      → IsUnique other
      → all_in s other ≡ true
      → length other ≤ length s
      → has k other ≡ true
      → has k s ≡ true
  unfolding all_in has
  all_in_complete [] [] k us uo h le member = member
  all_in_complete [] (y ∷ other) k us uo h le member = absurd (omega arith)
  all_in_complete (x ∷ s) other k us uo h le member =
      let here : has x other ≡ true = ground arith in
      let rest : all_in s other ≡ true = ground arith in
      elim (Bool-cases (same x k)) [
        | inl e ↦ rw e refl
        | inr e ↦ rw e (
            all_in_complete s (delete x other) k us.1 (IsUnique-delete x other uo)
              (all_in-delete x s other us.0 rest) (omega (arith, length-delete x other uo here))
              (has-delete x k other ∙ ground arith))
      ]

  has-all_in :
      (s other : List K) (k : K) → all_in s other ≡ true → has k s ≡ true → has k other ≡ true
  unfolding all_in has
  has-all_in [] other k h member = ground arith
  has-all_in (x ∷ s) other k h member = ground (arith, same_iff x k, has-all_in s other k)

  all_in-has :
      (s other : List K) → ((k : K) → has k s ≡ true → has k other ≡ true) → all_in s other ≡ true
  unfolding all_in has
  all_in-has [] other h = refl
  all_in-has (x ∷ s) other h =
      let here : has x other ≡ true = h x (ground (arith, same_iff x x)) in
      let rest = all_in-has s other (λ k m. h k (ground arith)) in rw here rest

  -- Equals, which compares the lengths and looks for the members of one set in the other, returns
  -- true exactly when the two sets have the same members.
  pub equals-has :
      (s other : List K)
      → IsUnique s
      → IsUnique other
      → (equals s other ≡ true) ↔ ((k : K) → has k s ≡ has k other)
  unfolding equals
  equals-has s other us uo = (
    λ h k.
        let within : all_in s other ≡ true = ground arith in
        let long : length s ≡ length other = ground arith in
        ground (arith, has-all_in s other k, all_in_complete s other k us uo within (omega arith)),
    λ h.
        let forth = all_in-has s other (λ k m. sym (h k) ∙ m) in
        let back = all_in-has other s (λ k m. h k ∙ m) in
        let long : length s ≡ length other =
          omega (arith, length-all_in s other us uo forth, length-all_in other s uo us back) in
        ground arith,
  )
