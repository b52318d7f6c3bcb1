-- ===== src/Prune/Decide/Safe.antt =====
-- A needed pack is never removed, and a plan is made only if every needed pack is there.
use restic.Prelude.{
  ℕ, ◌≡◌, ◌≢◌, ◌∙◌, refl, sym, ap, subst, Bool, true, false, ◌⊎◌, Option, none, some, List, [], ◌∷◌,
  ◌==◌, arith, ok, err, ok-injective, err-ok, >>=-eq-ok, Bool-cases, inl, inr, ==_iff, bytes_eq,
  bytes_eq→eq,
}
use restic.Blob.{BlobId, has_id, insert_id}
use restic.Prune.{packs_missing, PruneOptions, PruneStats, PackInfo, Infos, get_info, delete_info}
use restic.Prune.Decide.{
  Candidate, Decision, Actions, total_size, target_pack_size, count_removed, decide_pack, unindexed,
  examine, examine_all, ignore_missing, select_repacks, decide_pack_action,
}
use restic.Prune.Decide.Unlisted.{
  has_id-insert, get_info-delete_other, IsListing, examine_all-IsFresh,
}
use restic.Prune.Decide.Examined.{seen, examine-cases, decide_pack-infos, decide_pack-remove}

none-some : (p : PackInfo) → ◌≡◌ {A = Option PackInfo} none (some p) → ⊥
none-some p h = cc

some-injective : (p q : PackInfo) → some p ≡ some q → p ≡ q
some-injective p q h = cc

fit-size :
    (p q : PackInfo) (size : ℕ)
    → p ≡ q
    → q.used_blobs ≢ 0
    → (total_size p ≡ size) ⊎ (p.used_blobs ≡ 0)
    → total_size q ≡ size
fit-size p q size e needed (inl h) = ap (λ (x : PackInfo). total_size x) (sym e) ∙ h
fit-size p q size e needed (inr h) =
    absurd (needed (ap (λ (x : PackInfo). x.used_blobs) (sym e) ∙ h))

get_info-delete_same : (id : BlobId) (xs : Infos) → get_info id (delete_info id xs) ≡ none
unfolding get_info delete_info
get_info-delete_same id [] = refl
get_info-delete_same id ((x, p) ∷ xs) = ground (arith, get_info-delete_same id xs)

get_info-delete_some :
    (id i : BlobId) (xs : Infos) (p : PackInfo)
    → get_info i (delete_info id xs) ≡ some p
    → get_info i xs ≡ some p
get_info-delete_some id i xs p h = elim (Bool-cases (bytes_eq id i)) [
  | inl e ↦
      let same : id ≡ i = bytes_eq→eq id i e in
      absurd (
        none-some p (
          sym (
            ap (λ (y : BlobId). get_info y (delete_info id xs)) (sym same)
            ∙ get_info-delete_same id xs)
          ∙ h))
  | inr e ↦ sym (get_info-delete_other id i xs e) ∙ h
]

-- A pack of the index that holds no used blob.
abbrev pub Unneeded : Infos → BlobId → Type 0
Unneeded infos id = (p : PackInfo) × (get_info id infos ≡ some p) × (p.used_blobs ≡ 0)

-- The entries that are left come from the index, and what is removed is not needed.
record IsSafe (infos : Infos) (d : Decision) : Type 0 where
  left : (id : BlobId) (p : PackInfo) → get_info id d.infos ≡ some p → get_info id infos ≡ some p
  removed : (id : BlobId) → has_id id d.remove ≡ true → Unneeded infos id

-- The pack is listed with the size that the index gives.
abbrev pub Listed : BlobId → PackInfo → List (BlobId × ℕ) → Type 0
Listed id p [] = ⊥
Listed id p ((x, size) ∷ files) = (x ≡ id) × (total_size p ≡ size) ⊎ Listed id p files

decided-IsSafe :
    (opts : PruneOptions) (version target : ℕ) (id : BlobId) (size : ℕ) (infos : Infos)
    (d : Decision) (p : PackInfo)
    → IsSafe infos d
    → get_info id d.infos ≡ some p
    → IsSafe infos (decide_pack opts version target id size p (seen id p d))
decided-IsSafe opts version target id size infos d p safe found = record {
  left = λ i q h. safe.left i q (
      get_info-delete_some id i d.infos q (
        ap (get_info i) (sym (decide_pack-infos opts version target id size p (seen id p d))) ∙ h));
  removed = λ i h. elim (decide_pack-remove opts version target id size p (seen id p d)) [
    | inl e ↦ safe.removed i (ap (has_id i) (sym e) ∙ h)
    | inr (unused, e) ↦ elim (has_id-insert i id d.remove (ap (has_id i) (sym e) ∙ h)) [
      | inl here ↦ subst (Unneeded infos) here (p, safe.left id p found, unused)
      | inr before ↦ safe.removed i before
    ]
  ];
}

examine-IsSafe :
    (opts : PruneOptions) (version target : ℕ) (id : BlobId) (size : ℕ) (infos : Infos)
    (d d' : Decision)
    → IsSafe infos d
    → examine opts version target id size d ≡ ok d'
    → IsSafe infos d'
unfolding unindexed
examine-IsSafe opts version target id size infos d d' safe h =
    elim (examine-cases opts version target id size d d' h) [
      | inl (missing, is) ↦
          subst (IsSafe infos) (sym is) (record { left = safe.left; removed = safe.removed })
      | inr (p, found, fits, is) ↦
          subst (IsSafe infos) (sym is)
            (decided-IsSafe opts version target id size infos d p safe found)
    ]

examine_all-IsSafe :
    (opts : PruneOptions) (version target : ℕ) (files : List (BlobId × ℕ)) (infos : Infos)
    (d d' : Decision)
    → IsSafe infos d
    → examine_all opts version target files d ≡ ok d'
    → IsSafe infos d'
unfolding examine_all
examine_all-IsSafe opts version target [] infos d d' safe h =
    subst (IsSafe infos) (ok-injective d d' h) safe
examine_all-IsSafe opts version target ((id, size) ∷ files) infos d d' safe h =
    let (d1, first, rest) = >>=-eq-ok (examine opts version target id size d) _ h in
    examine_all-IsSafe opts version target files infos d1 d'
      (examine-IsSafe opts version target id size infos d d1 safe first) rest

-- A needed entry is still there, or its pack is listed with its size.
examine-needed :
    (opts : PruneOptions) (version target : ℕ) (id i : BlobId) (size : ℕ) (d d' : Decision)
    (q : PackInfo)
    → examine opts version target id size d ≡ ok d'
    → get_info i d.infos ≡ some q
    → q.used_blobs ≢ 0
    → (get_info i d'.infos ≡ some q) ⊎ (id ≡ i) × (total_size q ≡ size)
unfolding unindexed
examine-needed opts version target id i size d d' q h found needed =
    elim (examine-cases opts version target id size d d' h) [
      | inl (missing, is) ↦ inl (ap (λ (x : Decision). get_info i x.infos) is ∙ found)
      | inr (p, at, fits, is) ↦ elim (Bool-cases (bytes_eq id i)) [
        | inl e ↦
            let same : id ≡ i = bytes_eq→eq id i e in
            let pq : p ≡ q =
              some-injective p q (sym at ∙ ap (λ (y : BlobId). get_info y d.infos) same ∙ found) in
            inr (same, fit-size p q size pq needed fits)
        | inr e ↦ inl (
            ap (λ (x : Decision). get_info i x.infos) is
            ∙ ap (get_info i) (decide_pack-infos opts version target id size p (seen id p d))
            ∙ get_info-delete_other id i d.infos e
            ∙ found)
      ]
    ]

examine_all-needed :
    (opts : PruneOptions) (version target : ℕ) (files : List (BlobId × ℕ)) (i : BlobId)
    (d d' : Decision) (q : PackInfo)
    → examine_all opts version target files d ≡ ok d'
    → get_info i d.infos ≡ some q
    → q.used_blobs ≢ 0
    → (get_info i d'.infos ≡ some q) ⊎ Listed i q files
unfolding examine_all
examine_all-needed opts version target [] i d d' q h found needed =
    inl (ap (λ (x : Decision). get_info i x.infos) (sym (ok-injective d d' h)) ∙ found)
examine_all-needed opts version target ((id, size) ∷ files) i d d' q h found needed =
    let (d1, first, rest) = >>=-eq-ok (examine opts version target id size d) _ h in
    elim (examine-needed opts version target id i size d d1 q first found needed) [
      | inl still ↦
          elim (examine_all-needed opts version target files i d1 d' q rest still needed) [
            | inl e ↦ inl e
            | inr e ↦ inr (inr e)
          ]
      | inr e ↦ inr (inl e)
    ]

ignore_missing-unneeded :
    (infos : Infos) (ignored : List BlobId) (stats : PruneStats) (r : List BlobId × PruneStats)
    (i : BlobId) (q : PackInfo)
    → ignore_missing infos ignored stats ≡ ok r
    → get_info i infos ≡ some q
    → q.used_blobs ≡ 0
unfolding ignore_missing get_info
ignore_missing-unneeded [] ignored stats r i q h found = absurd (none-some q found)
ignore_missing-unneeded ((id, p) ∷ rest) ignored stats r i q h found =
    elim (Bool-cases (p.used_blobs == 0)) [
      | inl e ↦
          let h' =
            subst
              (λ (b : Bool).
                elim b [
                  | true ↦ ignore_missing rest (insert_id id ignored) (count_removed p stats)
                  | false ↦ err packs_missing
                ]
                ≡ ok r)
              e h in
          elim (Bool-cases (bytes_eq id i)) [
            | inl f ↦
                ap (λ (x : PackInfo). x.used_blobs) (some-injective q p (ground arith))
                ∙ (==_iff p.used_blobs 0).0 e
            | inr f ↦
                ignore_missing-unneeded rest (insert_id id ignored) (count_removed p stats) r i q h'
                  (ground arith)
          ]
      | inr e ↦ absurd (
          err-ok (
            subst
              (λ (b : Bool).
                elim b [
                  | true ↦ ignore_missing rest (insert_id id ignored) (count_removed p stats)
                  | false ↦ err packs_missing
                ]
                ≡ ok r)
              e h))
    ]

module _ (sort : (Candidate → Candidate → Bool) → List Candidate → List Candidate) where
  -- If decidePackAction makes a plan from a listing without repetitions, each pack of removePacks is
  -- in the index and holds no used blob, and each pack of removePacksFirst is not in the index.
  pub decide_pack_action-removed :
      (opts : PruneOptions) (version pack_size : ℕ) (files : List (BlobId × ℕ)) (infos : Infos)
      (stats : PruneStats) (actions : Actions) (id : BlobId)
      → IsListing files
      → decide_pack_action sort opts version pack_size files infos stats ≡ ok actions
      → (has_id id actions.remove_packs ≡ true → Unneeded infos id)
        × (has_id id actions.remove_packs_first ≡ true → get_info id infos ≡ none)
  unfolding decide_pack_action select_repacks has_id
  decide_pack_action-removed opts version pack_size files infos stats actions id unique h =
      let target = target_pack_size opts pack_size in
      let (d, examined, h1) = >>=-eq-ok (examine_all opts version target files _) _ h in
      let ((ignored, stats1), missing, h2) = >>=-eq-ok (ignore_missing d.infos [] d.stats) _ h1 in
      let safe =
        examine_all-IsSafe opts version target files infos _ d
          (record { left = λ i p found. found; removed = λ i e. cc }) examined in
      let fresh =
        examine_all-IsFresh opts version target files infos _ d unique
          (record { left = λ i e. refl; first = λ i e. cc }) examined in
      let is = ok-injective _ actions h2 in
      (
        λ e. safe.removed id (ap (λ (x : Actions). has_id id x.remove_packs) is ∙ e),
        λ e. fresh.first id (ap (λ (x : Actions). has_id id x.remove_packs_first) is ∙ e),
      )

  -- If decidePackAction makes a plan, each pack of the index that holds a used blob is listed,
  -- with the size that the index gives for it.
  pub decide_pack_action-needed :
      (opts : PruneOptions) (version pack_size : ℕ) (files : List (BlobId × ℕ)) (infos : Infos)
      (stats : PruneStats) (actions : Actions) (id : BlobId) (p : PackInfo)
      → decide_pack_action sort opts version pack_size files infos stats ≡ ok actions
      → get_info id infos ≡ some p
      → p.used_blobs ≢ 0
      → Listed id p files
  unfolding decide_pack_action
  decide_pack_action-needed opts version pack_size files infos stats actions id p h found needed =
      let target = target_pack_size opts pack_size in
      let (d, examined, h1) = >>=-eq-ok (examine_all opts version target files _) _ h in
      let (r, missing, h2) = >>=-eq-ok (ignore_missing d.infos [] d.stats) _ h1 in
      elim (examine_all-needed opts version target files id _ d p examined found needed) [
        | inl left ↦
            absurd (needed (ignore_missing-unneeded d.infos [] d.stats r id p missing left))
        | inr listed ↦ listed
      ]
