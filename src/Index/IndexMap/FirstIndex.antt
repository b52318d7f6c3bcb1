-- ===== src/Index/IndexMap/FirstIndex.antt =====
-- firstIndex finds the smallest position that holds an ID.
use restic.Prelude.{
  ℕ, zero, suc, ◌≤◌, ◌≡◌, ◌∙◌, refl, sym, ap, false, not, Option, none, some, ◌==◌, if◌then◌else◌,
  arith, ok, bytes_eq, Bool-cases, inl, inr, suc-==-zero,
}
use restic.Blob.{BlobId}
use restic.Index.HashedArrayTree.{HashedArrayTree, ref}
use restic.Index.HashedArrayTree.Growth.{ref-some}
use restic.Index.IndexMap.{IndexEntry, find_first, earlier}
use restic.Index.IndexMap.Chains.{Item, item, item_at, IsLinked, resolve-ok, item_at-some}
use restic.Index.IndexMap.Walks.{chain_at, next-chain, other_bucket, chain_at-step, chain_at-low}

abbrev pub keep_first : BlobId → ℕ → Option ℕ → Option Item → Option ℕ
keep_first id i (some j) o = some j
keep_first id i none none = none
keep_first id i none (some x) = if bytes_eq x.id id then some i else none

-- The smallest position from 1 up to, but without, `n` that holds the ID.
unfoldable pub first_position : HashedArrayTree IndexEntry → BlobId → ℕ → Option ℕ
first_position bl id zero = none
first_position bl id (suc zero) = none
first_position bl id (suc (suc n)) =
    keep_first id (suc n) (first_position bl id (suc n)) (item_at bl (suc n))

abbrev pub or_else : Option ℕ → Option ℕ → Option ℕ
or_else (some i) idx = some i
or_else none idx = idx

-- A candidate that lies at or beyond `n`.
abbrev pub Beyond : ℕ → Option ℕ → Type 0
Beyond n none = Unit
Beyond n (some j) = n ≤ j

earlier-Beyond : (n : ℕ) (idx : Option ℕ) → Beyond (suc n) idx → earlier n idx ≡ some n
unfolding earlier
earlier-Beyond n none h = refl
earlier-Beyond n (some j) h = ground arith

Beyond-le : (n : ℕ) (idx : Option ℕ) → Beyond (suc n) idx → Beyond n idx
Beyond-le n none h = tt
Beyond-le n (some j) h = omega arith

module _ (bl : HashedArrayTree IndexEntry) (bucket_of : BlobId → ℕ) (linked : IsLinked bl bucket_of)
    (id : BlobId) where
  abbrev chain : ℕ → ℕ
  chain n = chain_at bl bucket_of linked id n

  find_first-end : (fuel : ℕ) (idx : Option ℕ) → find_first fuel bl id 0 idx ≡ ok idx
  unfolding find_first
  find_first-end zero idx = refl
  find_first-end (suc fuel) idx = refl

  find_first-step :
      (f n : ℕ) (e : IndexEntry) (idx : Option ℕ)
      → ref bl (suc n) ≡ some e
      → find_first (suc f) bl id (suc n) idx
        ≡ find_first f bl id e.next (if not (bytes_eq e.id id) then idx else earlier (suc n) idx)
  unfolding find_first
  find_first-step f n e idx found = rw (suc-==-zero n, resolve-ok bl (suc n) e found) refl

  pub first_position-step :
      (n : ℕ) (e : IndexEntry)
      → ref bl (suc n) ≡ some e
      → first_position bl id (suc (suc n))
        ≡ keep_first id (suc n) (first_position bl id (suc n)) (some (item e))
  unfolding first_position
  first_position-step n e found =
      ap (keep_first id (suc n) (first_position bl id (suc n))) (item_at-some bl (suc n) e found)

  first_position-low : (n : ℕ) → n ≤ 1 → first_position bl id n ≡ none
  unfolding first_position
  first_position-low zero h = refl
  first_position-low (suc zero) h = refl
  first_position-low (suc (suc n)) h = absurd (omega arith)

  abbrev step_idx : ℕ → IndexEntry → Option ℕ → Option ℕ
  step_idx n e idx = if not (bytes_eq e.id id) then idx else earlier (suc n) idx

  step-Beyond :
      (n : ℕ) (e : IndexEntry) (idx : Option ℕ)
      → Beyond (suc (suc n)) idx
      → Beyond (suc n) (step_idx n e idx)
  step-Beyond n e idx h = elim (Bool-cases (bytes_eq e.id id)) [
    | inl t ↦ rw (t, earlier-Beyond (suc n) idx h) (omega arith)
    | inr t ↦ rw t (Beyond-le (suc n) idx h)
  ]

  keep_first-other :
      (i : ℕ) (e : IndexEntry) (o : Option ℕ)
      → bytes_eq e.id id ≡ false
      → o ≡ keep_first id i o (some (item e))
  keep_first-other i e (some j) h = refl
  keep_first-other i e none h = rw h refl

  combine :
      (n : ℕ) (e : IndexEntry) (idx o : Option ℕ)
      → Beyond (suc (suc n)) idx
      → or_else o (if not (bytes_eq e.id id) then idx else earlier (suc n) idx)
        ≡ or_else (keep_first id (suc n) o (some (item e))) idx
  combine n e idx (some i) h = refl
  combine n e idx none h = rw (earlier-Beyond (suc n) idx h) (ground arith)

  pub find_first-or_else :
      (n fuel : ℕ) (idx : Option ℕ)
      → n ≤ suc fuel
      → n ≤ bl.size
      → Beyond n idx
      → find_first fuel bl id (chain n) idx ≡ ok (or_else (first_position bl id n) idx)
  find_first-or_else zero fuel idx h k b =
      rw (chain_at-low bl bucket_of linked id 0 (omega arith), first_position-low 0 (omega arith))
        (find_first-end fuel idx)
  find_first-or_else (suc zero) fuel idx h k b =
      rw (chain_at-low bl bucket_of linked id 1 (omega arith), first_position-low 1 (omega arith))
        (find_first-end fuel idx)
  find_first-or_else (suc (suc n)) zero idx h k b = absurd (omega arith)
  find_first-or_else (suc (suc n)) (suc fuel) idx h k b =
      let (e, found) = ref-some bl (suc n) linked.valid k in
      rw (chain_at-step bl bucket_of linked id n e found)
        (elim (Bool-cases (bucket_of e.id == bucket_of id)) [
          | inl same ↦
              rw
                (
                  same,
                  find_first-step fuel n e idx found,
                  next-chain bl bucket_of linked id (suc n) e (omega arith) k found same,
                )
                (find_first-or_else (suc n) fuel (step_idx n e idx) (omega arith) (omega arith)
                    (step-Beyond n e idx b)
                  ∙ ap ok (
                      combine n e idx (first_position bl id (suc n)) b
                      ∙ ap (λ o. or_else o idx) (sym (first_position-step n e found))))
          | inr other ↦ rw other (
              find_first-or_else (suc n) (suc fuel) idx (omega arith) (omega arith)
                (Beyond-le (suc n) idx b)
              ∙ ap ok (
                  ap (λ o. or_else o idx)
                    (keep_first-other (suc n) e (first_position bl id (suc n))
                        (other_bucket bl bucket_of linked id e other)
                      ∙ sym (first_position-step n e found))))
        ])
