-- ===== src/Prune/Execute/Complete.antt =====
-- What Execute has done when it returns nil.
use restic.Prelude.{
  ◌≡◌, refl, Bool, true, false, ◌||◌, Option, none, some, List, [], ◌∷◌, ◌==◌, if◌then◌else◌,
  length, arith, Result, ok, err, Bool-cases, inl, inr, bytes_eq, bytes_eq_iff,
}
use restic.Prelude.Maps.{bytes_key}
use restic.Blob.{Bytes, BlobId}
use restic.Sets.{has}
use restic.Sets.Algebra.{has-operations}
use restic.Prune.{PruneOptions, Counts}
use restic.Prune.Plan.{PrunePlan}
use restic.Prune.Execute.{
  FileType, pack_file, index_file, remove_unpacked, repack, rewrite, save_fallback, clear_index,
  Trace, World, ExecuteError, context_error, delete_files, delete_packs, stops, after_repack,
  repack_packs, ignored, update_index, saved, finish_execute, after_index, remove_old, execute,
}
use restic.Prune.Execute.Ordered.{has-empty}

-- Whether the removal of a pack is among the calls.
unfoldable pub tried : BlobId → Trace → Bool
tried id [] = false
tried id (remove_unpacked pack_file x ∷ t) = bytes_eq x id || tried id t
tried id (remove_unpacked index_file x ∷ t) = tried id t
tried id (repack packs keep ∷ t) = tried id t
tried id (rewrite packs ∷ t) = tried id t
tried id (save_fallback packs ∷ t) = tried id t
tried id (clear_index ∷ t) = tried id t

tried-delete_files :
    (w : World) (ignore_error : Bool) (type : FileType) (id : BlobId) (ids : List BlobId)
    (t : Trace)
    → tried id t ≡ true
    → tried id (delete_files w ignore_error type ids t).0 ≡ true
unfolding delete_files tried
tried-delete_files w ignore_error type id [] t h = h
tried-delete_files w ignore_error pack_file id (x ∷ ids) t h = ground (
  arith,
  h,
  tried-delete_files w ignore_error pack_file id ids (remove_unpacked pack_file x ∷ t)
      (ground arith),
)
tried-delete_files w ignore_error index_file id (x ∷ ids) t h = ground (
  arith,
  h,
  tried-delete_files w ignore_error index_file id ids (remove_unpacked index_file x ∷ t) h,
)

stops_never : (e : Option Bytes) → stops true e ≡ false
unfolding stops
stops_never none = refl
stops_never (some e) = refl

-- A removal that ends without cancellation has tried every pack of the set.
all_tried :
    (w : World) (id : BlobId) (ids : List BlobId) (t : Trace)
    → has id ids ≡ true
    → w.cancelled (delete_files w true pack_file ids t).0 ≡ false
    → tried id (delete_files w true pack_file ids t).0 ≡ true
unfolding delete_files tried has
all_tried w id [] t h going = ground arith
all_tried w id (x ∷ ids) t h going =
    let after : Trace = remove_unpacked pack_file x ∷ t in
    ground (
      arith,
      stops_never (w.remove_error after),
      bytes_eq_iff x id,
      all_tried w id ids after,
      tried-delete_files w true pack_file id ids after,
    )

module _ (w : World) (id : BlobId) where
  tried-delete_packs :
      (ids : List BlobId) (t : Trace)
      → (tried id t || has id ids) ≡ true
      → w.cancelled (delete_packs w ids t) ≡ false
      → tried id (delete_packs w ids t) ≡ true
  unfolding delete_packs
  tried-delete_packs ids t planned going =
      ground (
        arith,
        has-empty id ids,
        all_tried w id ids t,
        tried-delete_files w true pack_file id ids t,
      )

  -- A run that ended with nil has tried the pack.
  Done : Trace × Option ExecuteError → Type 0
  Done (t, none) = tried id t ≡ true
  Done (t, some e) = Unit

  Done-saved : (t : Trace) (e : Option Bytes) → tried id t ≡ true → Done (saved t e)
  unfolding saved Done tried
  Done-saved t none h = h
  Done-saved t (some e) h = tt

  Done-finish_execute :
      (opts : PruneOptions) (ignore : List BlobId) (t : Trace)
      → (w.cancelled t ≡ false → tried id t ≡ true)
      → Done (finish_execute w opts ignore t)
  unfolding finish_execute Done tried
  Done-finish_execute opts ignore t h = elim (Bool-cases (w.cancelled t)) [
    | inl stopped ↦ rw stopped tt
    | inr going ↦ elim (Bool-cases opts.unsafe_recovery) [
      | inl unsafe ↦
          rw (going, unsafe)
            (Done-saved (save_fallback ignore ∷ t) (w.fallback_error (save_fallback ignore ∷ t))
              (h going))
      | inr safe ↦ rw (going, safe) (Done-saved t none (h going))
    ]
  ]

  Done-after_index :
      (opts : PruneOptions) (remove ignore : List BlobId) (r : Trace × Option Bytes)
      → (tried id r.0 || has id remove) ≡ true
      → Done (after_index w opts remove ignore r)
  unfolding after_index Done
  Done-after_index opts remove ignore (t, some e) h = tt
  Done-after_index opts remove ignore (t, none) h =
      Done-finish_execute opts ignore (delete_packs w remove t) (tried-delete_packs remove t h)

  tried-update_index :
      (opts : PruneOptions) (ignore : List BlobId) (t : Trace)
      → tried id t ≡ true
      → tried id (update_index w opts ignore t).0 ≡ true
  unfolding update_index tried
  tried-update_index opts ignore t h =
      ground (arith, h, tried-delete_files w false index_file id w.index_ids t h)

  Left : Trace × Result ExecuteError (List BlobId) → Type 0
  Left (t, err e) = Unit
  Left (t, ok remove) = (tried id t || has id remove) ≡ true

  Done-remove_old :
      (plan : PrunePlan) (r : Trace × Result ExecuteError (List BlobId))
      → Left r
      → Done (remove_old w plan r)
  unfolding remove_old Left Done
  Done-remove_old plan (t, err e) h = tt
  Done-remove_old plan (t, ok remove) h =
      let ignore = ignored plan remove in
      Done-after_index plan.opts remove ignore (update_index w plan.opts ignore t)
        (ground (arith, h, tried-update_index plan.opts ignore t))

  planned : PrunePlan → Bool
  planned plan =
      has id plan.actions.remove_packs_first
      || has id plan.actions.remove_packs
      || has id plan.actions.repack_packs

  Left-after_repack :
      (plan : PrunePlan) (t : Trace) (r : Result Bytes Counts)
      → (tried id t || has id plan.actions.remove_packs || has id plan.actions.repack_packs) ≡ true
      → Left (t, after_repack plan r)
  unfolding after_repack Left
  Left-after_repack plan t (err e) h = tt
  Left-after_repack plan t (ok left) h = elim (Bool-cases (length left == 0)) [
    | inl none_left ↦ rw none_left (
        ground
          (arith, h, (has-operations plan.actions.remove_packs plan.actions.repack_packs id).0))
    | inr some_left ↦ rw some_left tt
  ]

  Left-repack_packs :
      (plan : PrunePlan) (t : Trace)
      → (tried id t || has id plan.actions.remove_packs || has id plan.actions.repack_packs) ≡ true
      → Left (repack_packs w plan t)
  unfolding repack_packs Left tried
  Left-repack_packs plan t h = elim (Bool-cases (length plan.actions.repack_packs == 0)) [
    | inl nothing ↦ rw nothing (ground (arith, h, has-empty id plan.actions.repack_packs))
    | inr something ↦ rw something (
        Left-after_repack plan (repack plan.actions.repack_packs plan.keep_blobs ∷ t)
          (w.repack_result (repack plan.actions.repack_packs plan.keep_blobs ∷ t)) h)
  ]

  Done-guards :
      (dry stopped : Bool) (t : Trace) (r : Trace × Option ExecuteError)
      → dry ≡ false
      → (stopped ≡ false → Done r)
      → Done (if dry then ([], none) else if stopped then (t, some context_error) else r)
  unfolding Done
  Done-guards true stopped t r wet h = ground arith
  Done-guards false true t r wet h = tt
  Done-guards false false t r wet h = h refl

  Done-execute :
      (plan : PrunePlan) → plan.opts.dry_run ≡ false → planned plan ≡ true → Done (execute w plan)
  unfolding execute planned tried
  Done-execute plan wet h =
      let first : Trace = delete_packs w plan.actions.remove_packs_first [] in
      Done-guards plan.opts.dry_run (w.cancelled first) first
        (remove_old w plan (repack_packs w plan first)) wet
        (λ going. Done-remove_old plan (repack_packs w plan first) (
          Left-repack_packs plan first
            (ground (arith, h, going, tried-delete_packs plan.actions.remove_packs_first []))))

  tried-Done : (r : Trace × Option ExecuteError) → Done r → r.1 ≡ none → tried id r.0 ≡ true
  unfolding Done
  tried-Done (t, none) done h = done
  tried-Done (t, some e) done h = ground arith

-- If Execute returns nil, and DryRun is not set, then it has tried to remove each pack of
-- removePacksFirst, removePacks and repackPacks, with UnsafeRecovery as well as without.
pub execute-tried :
    (w : World) (plan : PrunePlan) (id : BlobId)
    → plan.opts.dry_run ≡ false
    → (execute w plan).1 ≡ none
    → (has id plan.actions.remove_packs_first
        || has id plan.actions.remove_packs
        || has id plan.actions.repack_packs)
      ≡ true
    → tried id (execute w plan).0 ≡ true
unfolding planned
execute-tried w plan id wet returned h =
    tried-Done w id (execute w plan) (Done-execute w id plan wet h) returned
