-- ===== src/Prune/Plan.antt =====
-- PlanPrune: the plan of a prune, from the blobs of the index, the used blobs and the listing.
-- `used` is the set that getUsedBlobs fills, each blob with the counter 0.
pub mod Recovery
use restic.Prelude.{
  ℕ, Bool, true, false, ◌&&◌, ◌||◌, Option, none, some, List, [], ◌∷◌, ◌==◌, ltb, if◌then◌else◌,
  length, Result, ok, err, ◌>>=◌,
}
use restic.Blob.{BlobId, BlobHandle, PackedBlob, handle_eq, has_id}
use restic.Prune.{
  PruneError, too_few_connections, needs_compression, PruneOptions, PruneStats, no_stats, Counts,
}
use restic.Prune.Select.{pack_info_from_index}
use restic.Prune.Decide.{Candidate, Actions, decide_pack_action}

pub record PrunePlan : Type 0 where
  pub actions : Actions
  pub keep_blobs : Option Counts
  pub opts : PruneOptions

unfoldable pub delete_count : BlobHandle → Counts → Counts
delete_count bh [] = []
delete_count bh ((x, n) ∷ rest) =
    if handle_eq x bh then delete_count bh rest else (x, n) ∷ delete_count bh rest

-- What is left to keep without the blobs of the packs that stay.
unfoldable pub without_kept : List PackedBlob → Actions → Counts → Counts
without_kept [] a keep = keep
without_kept (b ∷ bs) a keep =
    if has_id b.pack_id a.remove_packs || has_id b.pack_id a.repack_packs
    then without_kept bs a keep
    else without_kept bs a (delete_count b.handle keep)

unfoldable pub effective : PruneOptions → PruneOptions
effective opts = if opts.unsafe_recovery then record opts { max_repack_bytes = 0 } else opts

module _ (sort : (Candidate → Candidate → Bool) → List Candidate → List Candidate) where
  unfoldable pub plan_prune :
      PruneOptions
      → ℕ
      → ℕ
      → ℕ
      → List PackedBlob
      → Counts
      → List (BlobId × ℕ)
      → Result PruneError PrunePlan
  plan_prune given connections version pack_size blobs used files =
      let opts = effective given in
      if ltb connections 2
      then err too_few_connections
      else if ltb version 2 && opts.repack_uncompressed
      then err needs_compression
      else (do
        s ← pack_info_from_index blobs used no_stats
        a ← decide_pack_action sort opts version pack_size files s.infos s.stats
        let keep = if length a.repack_packs == 0 then none else some (without_kept blobs a s.counts)
        ok (record { actions = a; keep_blobs = keep; opts = opts }))
