-- ===== src/Prune/Decide/Unlisted.antt =====
-- Which packs are removed first: those of the listing that have no entry.
use restic.Prelude.{
  ℕ, ◌≡◌, ◌∙◌, refl, sym, ap, subst, Bool, true, false, ◌⊎◌, none, List, [], ◌∷◌, ◌||◌, arith, ok,
  ok-injective, >>=-eq-ok, Bool-cases, inl, inr, bytes_eq, bytes_eq_iff, bytes_eq→eq,
}
use restic.Blob.{BlobId, has_id, insert_id}
use restic.Prune.{PruneOptions, PackInfo, Infos, get_info, delete_info}
use restic.Prune.Decide.{Decision, decide_pack, unindexed, examine, examine_all}
use restic.Prune.Decide.Examined.{seen, examine-cases, decide_pack-infos}

-- Whether the listing has a file for the pack.
unfoldable pub has_file : BlobId → List (BlobId × ℕ) → Bool
has_file id [] = false
has_file id ((x, size) ∷ files) = bytes_eq x id || has_file id files

-- No pack is listed twice.
unfoldable pub IsListing : List (BlobId × ℕ) → Type 0
IsListing [] = Unit
IsListing ((x, size) ∷ files) = (has_file x files ≡ false) × IsListing files

pub has_id-insert :
    (i id : BlobId) (xs : List BlobId)
    → has_id i (insert_id id xs) ≡ true
    → (id ≡ i) ⊎ (has_id i xs ≡ true)
unfolding has_id insert_id
has_id-insert i id [] h = elim (Bool-cases (bytes_eq id i)) [
  | inl e ↦ inl (bytes_eq→eq id i e)
  | inr e ↦ inr (ground arith)
]
has_id-insert i id (x ∷ xs) h = elim (Bool-cases (bytes_eq x id)) [
  | inl e ↦ inr (ground arith)
  | inr e ↦ elim (Bool-cases (bytes_eq x i)) [
    | inl f ↦ inr (ground arith)
    | inr f ↦ elim (has_id-insert i id xs (ground arith)) [
      | inl g ↦ inl g
      | inr g ↦ inr (ground arith)
    ]
  ]
]

pub get_info-delete_other :
    (id i : BlobId) (xs : Infos)
    → bytes_eq id i ≡ false
    → get_info i (delete_info id xs) ≡ get_info i xs
unfolding get_info delete_info
get_info-delete_other id i [] h = refl
get_info-delete_other id i ((x, p) ∷ xs) h = elim (Bool-cases (bytes_eq x id)) [
  | inl e ↦
      let same : x ≡ id = bytes_eq→eq x id e in
      let other : bytes_eq x i ≡ false = ap (λ (y : BlobId). bytes_eq y i) same ∙ h in
      ground (arith, get_info-delete_other id i xs h)
  | inr e ↦ ground (arith, get_info-delete_other id i xs h)
]

decide_pack-first :
    (opts : PruneOptions) (version target : ℕ) (id : BlobId) (size : ℕ) (p : PackInfo)
    (d : Decision)
    → (decide_pack opts version target id size p d).remove_first ≡ d.remove_first
unfolding decide_pack
decide_pack-first opts version target id size p d = ground arith

-- The packs that are still to be listed have the entries that they had, and those removed first
-- have none.
pub record IsFresh (infos : Infos) (files : List (BlobId × ℕ)) (d : Decision) : Type 0 where
  pub left : (id : BlobId) → has_file id files ≡ true → get_info id d.infos ≡ get_info id infos
  pub first : (id : BlobId) → has_id id d.remove_first ≡ true → get_info id infos ≡ none

apart :
    (i id : BlobId) (size : ℕ) (files : List (BlobId × ℕ))
    → IsListing ((id, size) ∷ files)
    → has_file i files ≡ true
    → bytes_eq id i ≡ false
unfolding IsListing
apart i id size files unique h = elim (Bool-cases (bytes_eq id i)) [
  | inl e ↦
      let here : has_file i files ≡ false =
        ap (λ (y : BlobId). has_file y files) (sym (bytes_eq→eq id i e)) ∙ unique.0 in
      ground arith
  | inr e ↦ e
]

examine-IsFresh :
    (opts : PruneOptions) (version target : ℕ) (id : BlobId) (size : ℕ) (files : List (BlobId × ℕ))
    (infos : Infos) (d d' : Decision)
    → IsListing ((id, size) ∷ files)
    → IsFresh infos ((id, size) ∷ files) d
    → examine opts version target id size d ≡ ok d'
    → IsFresh infos files d'
unfolding unindexed has_file
examine-IsFresh opts version target id size files infos d d' unique fresh h =
    elim (examine-cases opts version target id size d d' h) [
      | inl (missing, is) ↦ subst (IsFresh infos files) (sym is) (record {
        left = λ i e. fresh.left i (ground arith);
        first = λ i e. elim (has_id-insert i id d.remove_first e) [
          | inl here ↦
              ap (λ (y : BlobId). get_info y infos) (sym here)
              ∙ sym (fresh.left id (ground (arith, bytes_eq_iff id id)))
              ∙ missing
          | inr before ↦ fresh.first i before
        ];
      })
      | inr (p, found, fits, is) ↦ subst (IsFresh infos files) (sym is) (record {
        left = λ i e.
            ap (get_info i) (decide_pack-infos opts version target id size p (seen id p d))
            ∙ get_info-delete_other id i d.infos (apart i id size files unique e)
            ∙ fresh.left i (ground arith);
        first = λ i e. fresh.first i (
            ap (has_id i) (sym (decide_pack-first opts version target id size p (seen id p d)))
            ∙ e);
      })
    ]

pub examine_all-IsFresh :
    (opts : PruneOptions) (version target : ℕ) (files : List (BlobId × ℕ)) (infos : Infos)
    (d d' : Decision)
    → IsListing files
    → IsFresh infos files d
    → examine_all opts version target files d ≡ ok d'
    → IsFresh infos [] d'
unfolding examine_all
examine_all-IsFresh opts version target [] infos d d' unique fresh h =
    subst (IsFresh infos []) (ok-injective d d' h) fresh
examine_all-IsFresh opts version target ((id, size) ∷ files) infos d d' unique fresh h =
    let (d1, first, rest) = >>=-eq-ok (examine opts version target id size d) _ h in
    examine_all-IsFresh opts version target files infos d1 d' (unfold IsListing in unique.1)
      (examine-IsFresh opts version target id size files infos d d1 unique fresh first) rest
