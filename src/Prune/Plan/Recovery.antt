-- ===== src/Prune/Plan/Recovery.antt =====
-- With UnsafeRecovery nothing is repacked.
use restic.Prelude.{
  ℕ, ◌≡◌, ◌∙◌, refl, sym, ap, Bool, true, false, ◌&&◌, none, some, List, [], ◌∷◌, ◌++◌, ◌==◌, ltb,
  if◌then◌else◌, arith, length, Result, ok, err, ok-injective, ◌>>=◌, >>=-eq-ok,
}
use restic.Blob.{BlobId, PackedBlob}
use restic.Prune.{
  PruneError, too_few_connections, needs_compression, PruneOptions, PruneStats, no_stats, Counts,
  Infos,
}
use restic.Prune.Select.{pack_info_from_index}
use restic.Prune.Decide.{
  Candidate, Decision, Actions, target_pack_size, picked_before, count_kept, repacks, choose,
  examine_all, ignore_missing, select_repacks, decide_pack_action,
}
use restic.Prune.Plan.{PrunePlan, effective, plan_prune, without_kept}

never-repacks :
    (opts : PruneOptions) (target max_unused : ℕ) (stats : PruneStats) (c : Candidate)
    → opts.max_repack_bytes ≡ 0
    → repacks opts target max_unused stats c ≡ false
unfolding repacks
never-repacks opts target max_unused stats c h = ground arith

choose-none :
    (opts : PruneOptions) (target max_unused : ℕ) (cs : List Candidate) (repack : List BlobId)
    (stats : PruneStats)
    → opts.max_repack_bytes ≡ 0
    → (choose opts target max_unused cs repack stats).0 ≡ repack
unfolding choose
choose-none opts target max_unused [] repack stats h = refl
choose-none opts target max_unused (c ∷ cs) repack stats h =
    rw (choose, never-repacks opts target max_unused stats c h)
      (choose-none opts target max_unused cs repack (count_kept 1 stats) h)

-- A plan is made only if both checks let it pass.
passed :
    (few old : Bool) (r : Result PruneError PrunePlan) (plan : PrunePlan)
    → (if few then err too_few_connections else if old then err needs_compression else r) ≡ ok plan
    → r ≡ ok plan
passed few old r plan h = ground arith

effective-recovery :
    (opts : PruneOptions) → opts.unsafe_recovery ≡ true → (effective opts).max_repack_bytes ≡ 0
unfolding effective
effective-recovery opts h = rw h refl

module _ (sort : (Candidate → Candidate → Bool) → List Candidate → List Candidate) where
  select_repacks-none :
      (opts : PruneOptions) (version target : ℕ) (d : Decision) (ignored : List BlobId)
      (stats : PruneStats)
      → opts.max_repack_bytes ≡ 0
      → (select_repacks sort opts version target d ignored stats).repack_packs ≡ []
  unfolding select_repacks
  select_repacks-none opts version target d ignored stats zero_bytes =
      let few = ltb (length d.small_candidates) 10 in
      let stats1 : PruneStats =
        if few then count_kept (length d.small_candidates) stats else stats in
      choose-none opts target (opts.max_unused_bytes stats1.size.used)
        (sort (picked_before target)
          (if few then d.candidates else d.candidates ++ d.small_candidates))
        [] stats1 zero_bytes

  decide_pack_action-none :
      (opts : PruneOptions) (version pack_size : ℕ) (files : List (BlobId × ℕ)) (infos : Infos)
      (stats : PruneStats) (actions : Actions)
      → opts.max_repack_bytes ≡ 0
      → decide_pack_action sort opts version pack_size files infos stats ≡ ok actions
      → actions.repack_packs ≡ []
  unfolding decide_pack_action
  decide_pack_action-none opts version pack_size files infos stats actions zero_bytes h =
      let target = target_pack_size opts pack_size in
      let (d, examined, h1) = >>=-eq-ok (examine_all opts version target files _) _ h in
      let ((ignored, stats1), missing, h2) = >>=-eq-ok (ignore_missing d.infos [] d.stats) _ h1 in
      sym (ap (λ (x : Actions). x.repack_packs) (ok-injective _ actions h2))
      ∙ select_repacks-none opts version target d ignored stats1 zero_bytes

  planned :
      (opts : PruneOptions) (connections version pack_size : ℕ) (blobs : List PackedBlob)
      (used : Counts) (files : List (BlobId × ℕ))
      → Result PruneError PrunePlan
  planned opts connections version pack_size blobs used files = do
    s ← pack_info_from_index blobs used no_stats
    a ← decide_pack_action sort opts version pack_size files s.infos s.stats
    let keep = if length a.repack_packs == 0 then none else some (without_kept blobs a s.counts)
    ok (record { actions = a; keep_blobs = keep; opts = opts })

  planned-none :
      (opts : PruneOptions) (connections version pack_size : ℕ) (blobs : List PackedBlob)
      (used : Counts) (files : List (BlobId × ℕ)) (plan : PrunePlan)
      → opts.max_repack_bytes ≡ 0
      → planned opts connections version pack_size blobs used files ≡ ok plan
      → (plan.actions.repack_packs ≡ []) × (plan.keep_blobs ≡ none)
  unfolding planned
  planned-none opts connections version pack_size blobs used files plan zero_bytes h =
      let (s, _, h1) = >>=-eq-ok (pack_info_from_index blobs used no_stats) _ h in
      let (a, decided, h2) =
        >>=-eq-ok (decide_pack_action sort opts version pack_size files s.infos s.stats) _ h1 in
      let empty =
        decide_pack_action-none opts version pack_size files s.infos s.stats a zero_bytes decided in
      let is = ok-injective _ plan h2 in
      (
        sym (ap (λ (x : PrunePlan). x.actions.repack_packs) is) ∙ empty,
        sym (ap (λ (x : PrunePlan). x.keep_blobs) is)
            ∙ ap
                (λ (xs : List BlobId).
                  if length xs == 0 then none else some (without_kept blobs a s.counts))
                empty,
      )

  -- With UnsafeRecovery, a plan that PlanPrune makes repacks no pack, and so keeps no set of blobs
  -- for repacking.
  pub plan_prune-recovery :
      (opts : PruneOptions) (connections version pack_size : ℕ) (blobs : List PackedBlob)
      (used : Counts) (files : List (BlobId × ℕ)) (plan : PrunePlan)
      → opts.unsafe_recovery ≡ true
      → plan_prune sort opts connections version pack_size blobs used files ≡ ok plan
      → (plan.actions.repack_packs ≡ []) × (plan.keep_blobs ≡ none)
  unfolding plan_prune planned
  plan_prune-recovery opts connections version pack_size blobs used files plan recovery h =
      planned-none (effective opts) connections version pack_size blobs used files plan
        (effective-recovery opts recovery)
        (passed (ltb connections 2) (ltb version 2 && (effective opts).repack_uncompressed) _ plan
          h)
