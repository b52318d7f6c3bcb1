-- ===== src/Prune/Decide/Bounds.antt =====
-- The packs chosen for repacking stay within the limit on bytes to repack.
use restic.Prelude.{
  ℕ, ◌≤◌, ◌<◌, ◌≡◌, ◌∙◌, refl, sym, ap, subst, Bool, true, false, List, [], ◌∷◌, ◌++◌, ◌==◌, ltb,
  leb→lt, if◌then◌else◌, arith, length, ok, err, ok-injective, err-ok, >>=-eq-ok, Bool-cases, inl,
  inr,
}
use restic.Blob.{BlobId, insert_id}
use restic.Prune.{add64, packs_missing, PruneOptions, PruneStats, Infos}
use restic.Prune.Decide.Examined.{seen, examine-cases, decide_pack-repack, count_pack-repack}
use restic.Prune.Decide.{
  Candidate, Decision, Actions, target_pack_size, count_removed, count_kept, unindexed, examine,
  examine_all, ignore_missing, picked_before, count_repacked, repacks, choose, finish,
  select_repacks, decide_pack_action,
}

repacks-lt :
    (opts : PruneOptions) (target max_unused : ℕ) (stats : PruneStats) (c : Candidate)
    → repacks opts target max_unused stats c ≡ true
    → add64 (add64 stats.size.repack c.info.unused_size) c.info.used_size < opts.max_repack_bytes
unfolding repacks
repacks-lt opts target max_unused stats c h =
    let lt =
      leb→lt opts.max_repack_bytes
        (add64 (add64 stats.size.repack c.info.unused_size) c.info.used_size) in
    ground (arith, lt)

add64_assoc : (a b c : ℕ) → add64 a (add64 b c) ≡ add64 (add64 a b) c
add64_assoc a b c = omega arith

choose-le :
    (opts : PruneOptions) (target max_unused : ℕ) (cs : List Candidate) (repack : List BlobId)
    (stats : PruneStats)
    → stats.size.repack ≤ opts.max_repack_bytes
    → (choose opts target max_unused cs repack stats).1.size.repack ≤ opts.max_repack_bytes
unfolding choose count_repacked count_kept
choose-le opts target max_unused [] repack stats h = h
choose-le opts target max_unused (c ∷ cs) repack stats h =
    elim (Bool-cases (repacks opts target max_unused stats c)) [
      | inl go ↦
          rw (choose, go)
            (choose-le opts target max_unused cs (insert_id c.id repack)
              (count_repacked c.info stats)
              (omega (
                arith,
                repacks-lt opts target max_unused stats c go,
                add64_assoc stats.size.repack c.info.unused_size c.info.used_size,
              )))
      | inr stay ↦
          rw (choose, stay) (choose-le opts target max_unused cs repack (count_kept 1 stats) h)
    ]

examine-repack :
    (opts : PruneOptions) (version target : ℕ) (id : BlobId) (size : ℕ) (d d' : Decision)
    → examine opts version target id size d ≡ ok d'
    → d'.stats.size.repack ≡ d.stats.size.repack
unfolding unindexed
examine-repack opts version target id size d d' h =
    elim (examine-cases opts version target id size d d' h) [
      | inl (missing, is) ↦ ap (λ (x : Decision). x.stats.size.repack) is
      | inr (p, found, fits, is) ↦
          ap (λ (x : Decision). x.stats.size.repack) is
          ∙ decide_pack-repack opts version target id size p (seen id p d)
          ∙ count_pack-repack p d.stats
    ]

examine_all-repack :
    (opts : PruneOptions) (version target : ℕ) (files : List (BlobId × ℕ)) (d d' : Decision)
    → examine_all opts version target files d ≡ ok d'
    → d'.stats.size.repack ≡ d.stats.size.repack
unfolding examine_all
examine_all-repack opts version target [] d d' h =
    ap (λ (x : Decision). x.stats.size.repack) (sym (ok-injective d d' h))
examine_all-repack opts version target ((id, size) ∷ files) d d' h =
    let (d1, first, rest) = >>=-eq-ok (examine opts version target id size d) _ h in
    examine_all-repack opts version target files d1 d' rest
    ∙ examine-repack opts version target id size d d1 first

ignore_missing-repack :
    (infos : Infos) (ignored ignored' : List BlobId) (stats stats' : PruneStats)
    → ignore_missing infos ignored stats ≡ ok (ignored', stats')
    → stats'.size.repack ≡ stats.size.repack
unfolding ignore_missing count_removed
ignore_missing-repack [] ignored ignored' stats stats' h =
    ap (λ (x : List BlobId × PruneStats). x.1.size.repack) (sym (ok-injective _ _ h))
ignore_missing-repack ((id, p) ∷ rest) ignored ignored' stats stats' h =
    elim (Bool-cases (p.used_blobs == 0)) [
      | inl e ↦
          ignore_missing-repack rest (insert_id id ignored) ignored' (count_removed p stats) stats'
            (subst
              (λ (b : Bool).
                elim b [
                  | true ↦ ignore_missing rest (insert_id id ignored) (count_removed p stats)
                  | false ↦ err packs_missing
                ]
                ≡ ok (ignored', stats'))
              e h)
      | inr e ↦ absurd (
          err-ok (
            subst
              (λ (b : Bool).
                elim b [
                  | true ↦ ignore_missing rest (insert_id id ignored) (count_removed p stats)
                  | false ↦ err packs_missing
                ]
                ≡ ok (ignored', stats'))
              e h))
    ]

finish-repack :
    (version : ℕ) (first remove repack : List BlobId) (stats : PruneStats)
    → (finish version first remove repack stats).size.repack ≡ stats.size.repack
unfolding finish
finish-repack version first remove repack stats = ground arith

finish-choose-le :
    (opts : PruneOptions) (version target max_unused : ℕ) (first remove : List BlobId)
    (cs : List Candidate) (stats : PruneStats)
    → stats.size.repack ≤ opts.max_repack_bytes
    → (finish version first remove
        (choose opts target max_unused cs [] stats).0
        (choose opts target max_unused cs [] stats).1).size.repack
      ≤ opts.max_repack_bytes
finish-choose-le opts version target max_unused first remove cs stats h =
    subst (λ (k : ℕ). k ≤ opts.max_repack_bytes)
      (sym (
        finish-repack version first remove (choose opts target max_unused cs [] stats).0
          (choose opts target max_unused cs [] stats).1))
      (choose-le opts target max_unused cs [] stats h)

abbrev kept : Bool → Decision → PruneStats → PruneStats
kept few d stats = if few then count_kept (length d.small_candidates) stats else stats

kept-repack :
    (few : Bool) (d : Decision) (stats : PruneStats)
    → (kept few d stats).size.repack ≡ stats.size.repack
unfolding count_kept
kept-repack true d stats = refl
kept-repack false d stats = refl

module _ (sort : (Candidate → Candidate → Bool) → List Candidate → List Candidate) where
  select_repacks-le :
      (opts : PruneOptions) (version target : ℕ) (d : Decision) (ignored : List BlobId)
      (stats : PruneStats)
      → stats.size.repack ≤ opts.max_repack_bytes
      → (select_repacks sort opts version target d ignored stats).stats.size.repack
        ≤ opts.max_repack_bytes
  unfolding select_repacks
  select_repacks-le opts version target d ignored stats h =
      let few = ltb (length d.small_candidates) 10 in
      finish-choose-le opts version target (opts.max_unused_bytes (kept few d stats).size.used)
        d.remove_first d.remove
        (sort (picked_before target)
          (if few then d.candidates else d.candidates ++ d.small_candidates))
        (kept few d stats)
        (subst (λ (k : ℕ). k ≤ opts.max_repack_bytes) (sym (kept-repack few d stats)) h)

  -- Whatever the order of the candidates, the bytes that the plan counts as repacked are at most
  -- MaxRepackBytes, if they were before the packs are chosen; the counter wraps around at 64 bits.
  pub decide_pack_action-repack_le :
      (opts : PruneOptions) (version pack_size : ℕ) (files : List (BlobId × ℕ)) (infos : Infos)
      (stats : PruneStats) (actions : Actions)
      → stats.size.repack ≤ opts.max_repack_bytes
      → decide_pack_action sort opts version pack_size files infos stats ≡ ok actions
      → actions.stats.size.repack ≤ opts.max_repack_bytes
  unfolding decide_pack_action
  decide_pack_action-repack_le opts version pack_size files infos stats actions lo h =
      let target = target_pack_size opts pack_size in
      let (d, examined, h1) = >>=-eq-ok (examine_all opts version target files _) _ h in
      let ((ignored, stats1), missing, h2) = >>=-eq-ok (ignore_missing d.infos [] d.stats) _ h1 in
      let e1 = examine_all-repack opts version target files _ d examined in
      let e2 = ignore_missing-repack d.infos [] ignored d.stats stats1 missing in
      let le = select_repacks-le opts version target d ignored stats1 (omega arith) in
      subst (λ (x : Actions). x.stats.size.repack ≤ opts.max_repack_bytes)
        (ok-injective _ actions h2) le
