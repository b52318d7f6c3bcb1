-- ===== src/Prune/Execute/Safe.antt =====
-- The calls of Execute on a plan that decidePackAction made.
use restic.Prelude.{
  ℕ, ◌≡◌, ◌∙◌, refl, Bool, true, false, ◌⊎◌, none, List, [], ◌∷◌, arith, ok, Bool-cases, inl, inr,
}
use restic.Prelude.Maps.{bytes_key}
use restic.Blob.{BlobId, has_id}
use restic.Sets.{has}
use restic.Prune.{PruneOptions, PruneStats, Infos, get_info}
use restic.Prune.Decide.{Candidate, decide_pack_action}
use restic.Prune.Decide.Unlisted.{IsListing}
use restic.Prune.Decide.Safe.{Unneeded, decide_pack_action-removed}
use restic.Prune.Plan.{PrunePlan}
use restic.Prune.Execute.{
  pack_file, index_file, remove_unpacked, repack, rewrite, save_fallback, clear_index, Trace, World,
  execute,
}
use restic.Prune.Execute.Ordered.{left_out, moved, removable, in_order, execute-in_order}

has_id-has : (id : BlobId) (ids : List BlobId) → has_id id ids ≡ has id ids
unfolding has_id has
has_id-has id [] = refl
has_id-has id (x ∷ ids) = ground (arith, has_id-has id ids)

-- After the calls of a trace a pack may go: the index has no entry for it, or the index was
-- rewritten without it, and the pack holds no used blob or was repacked.
abbrev pub MayGo : World → Infos → BlobId → Trace → Type 0
MayGo w infos id t =
    (get_info id infos ≡ none)
    ⊎ (left_out w id t ≡ true) × (Unneeded infos id ⊎ (moved w id t ≡ true))

-- Every removal of a pack in a trace comes when the pack may go.
unfoldable pub IsSafeTrace : World → Infos → Trace → Type 0
IsSafeTrace w infos [] = Unit
IsSafeTrace w infos (remove_unpacked pack_file id ∷ t) = MayGo w infos id t × IsSafeTrace w infos t
IsSafeTrace w infos (remove_unpacked index_file id ∷ t) = IsSafeTrace w infos t
IsSafeTrace w infos (repack packs keep ∷ t) = IsSafeTrace w infos t
IsSafeTrace w infos (rewrite packs ∷ t) = IsSafeTrace w infos t
IsSafeTrace w infos (save_fallback packs ∷ t) = IsSafeTrace w infos t
IsSafeTrace w infos (clear_index ∷ t) = IsSafeTrace w infos t

module _ (w : World) (infos : Infos) (plan : PrunePlan)
    (firsts : (id : BlobId)
      → has id plan.actions.remove_packs_first ≡ true
      → get_info id infos ≡ none)
    (olds : (id : BlobId) → has id plan.actions.remove_packs ≡ true → Unneeded infos id) where
  removable-MayGo : (id : BlobId) (t : Trace) → removable w plan id t ≡ true → MayGo w infos id t
  unfolding removable
  removable-MayGo id t h = elim (Bool-cases (has id plan.actions.remove_packs_first)) [
    | inl first ↦ inl (firsts id first)
    | inr later ↦ elim (Bool-cases (has id plan.actions.remove_packs)) [
      | inl old ↦ inr (ground arith, inl (olds id old))
      | inr repacked ↦ inr (ground arith, inr (ground arith))
    ]
  ]

  in_order-IsSafeTrace : (t : Trace) → in_order w plan t ≡ true → IsSafeTrace w infos t
  unfolding in_order IsSafeTrace
  in_order-IsSafeTrace [] h = tt
  in_order-IsSafeTrace (remove_unpacked pack_file id ∷ t) h =
      (removable-MayGo id t (ground arith), in_order-IsSafeTrace t (ground arith))
  in_order-IsSafeTrace (remove_unpacked index_file id ∷ t) h = in_order-IsSafeTrace t h
  in_order-IsSafeTrace (repack packs keep ∷ t) h = in_order-IsSafeTrace t h
  in_order-IsSafeTrace (rewrite packs ∷ t) h = in_order-IsSafeTrace t h
  in_order-IsSafeTrace (save_fallback packs ∷ t) h = in_order-IsSafeTrace t h
  in_order-IsSafeTrace (clear_index ∷ t) h = in_order-IsSafeTrace t h

-- On a plan that decidePackAction made from the packs of the index and a listing without
-- repetitions, without UnsafeRecovery, whatever the repository answers and whenever the context is
-- cancelled: Execute removes a pack only if the index has no entry for it, or after the index was
-- rewritten without the pack and without error, and then only if the pack holds no used blob or
-- Repack read it and left no blob to keep. With DryRun it calls nothing and returns nil.
pub execute-IsSafeTrace :
    (sort : (Candidate → Candidate → Bool) → List Candidate → List Candidate) (opts : PruneOptions)
    (version pack_size : ℕ) (files : List (BlobId × ℕ)) (infos : Infos) (stats : PruneStats)
    (w : World) (plan : PrunePlan)
    → IsListing files
    → decide_pack_action sort opts version pack_size files infos stats ≡ ok plan.actions
    → plan.opts.unsafe_recovery ≡ false
    → IsSafeTrace w infos (execute w plan).0
      × (plan.opts.dry_run ≡ true → execute w plan ≡ ([], none))
execute-IsSafeTrace sort opts version pack_size files infos stats w plan unique made safe =
    let (ordered, dry) = execute-in_order w plan safe in
    let removed = λ (id : BlobId).
      decide_pack_action-removed sort opts version pack_size files infos stats plan.actions id
        unique made in
    (
      in_order-IsSafeTrace w infos plan
          (λ id e. (removed id).1 (has_id-has id plan.actions.remove_packs_first ∙ e))
          (λ id e. (removed id).0 (has_id-has id plan.actions.remove_packs ∙ e)) (execute w plan).0
          ordered,
      dry,
    )
