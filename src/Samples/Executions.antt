-- ===== src/Samples/Executions.antt =====
-- Two executions of a prune plan: one without errors, one whose index cannot be rewritten.
use restic.Prelude.{◌≡◌, refl, true, false, none, some, [], ◌∷◌, ◌||◌, ok, bytes_eq}
use restic.Prelude.Maps.{bytes_key}
use restic.Blob.{BlobId, data_blob}
use restic.Sets.{has, merge, insert}
use restic.Prune.{no_stats}
use restic.Prune.Plan.{PrunePlan}
use restic.Prune.Execute.{
  pack_file, remove_unpacked, repack, rewrite, clear_index, World, fatal, delete_packs,
  delete_files, after_repack, repack_packs, ignored, update_index, saved, finish_execute,
  after_index, remove_old, stops, execute,
}
use restic.Prune.Execute.Complete.{execute-tried, tried}

abbrev unlisted : BlobId
unlisted = 9 ∷ []

abbrev unused : BlobId
unused = 1 ∷ []

abbrev partly_used : BlobId
partly_used = 2 ∷ []

abbrev plan : PrunePlan
plan = record {
  actions = record {
    remove_packs_first = unlisted ∷ [];
    remove_packs = unused ∷ [];
    repack_packs = partly_used ∷ [];
    ignore_packs = [];
    stats = no_stats;
  };
  keep_blobs = some ((record { id = 7 ∷ []; type = data_blob }, 1) ∷ []);
  opts = record {
    dry_run = false;
    unsafe_recovery = false;
    max_unused_bytes = λ used. 0;
    max_repack_bytes = 1000;
    repack_cacheable_only = false;
    repack_small = false;
    repack_uncompressed = false;
  };
}

-- No call fails but the removals, whose errors are ignored.
abbrev working : World
working = record {
  cancelled = λ t. false;
  cancel_text = [];
  index_ids = [];
  remove_error = λ t. some [];
  repack_result = λ t. ok [];
  rewrite_error = λ t. none;
  fallback_error = λ t. none;
}

abbrev broken : World
broken = record working { rewrite_error = λ t. some (5 ∷ []) }

executes : execute working plan ≡ (
  clear_index
      ∷ remove_unpacked pack_file partly_used
      ∷ remove_unpacked pack_file unused
      ∷ rewrite (unused ∷ partly_used ∷ [])
      ∷ repack (partly_used ∷ []) plan.keep_blobs
      ∷ remove_unpacked pack_file unlisted
      ∷ [],
  none,
)
unfolding execute delete_packs delete_files stops repack_packs after_repack merge insert ignored
    update_index saved finish_execute after_index remove_old bytes_eq
executes = refl

stops_early : execute broken plan ≡ (
  rewrite (unused ∷ partly_used ∷ [])
      ∷ repack (partly_used ∷ []) plan.keep_blobs
      ∷ remove_unpacked pack_file unlisted
      ∷ [],
  some (fatal (5 ∷ [])),
)
unfolding execute delete_packs delete_files stops repack_packs after_repack merge insert ignored
    update_index saved finish_execute after_index remove_old bytes_eq
stops_early = refl

is_planned :
    (has partly_used plan.actions.remove_packs_first
      || has partly_used plan.actions.remove_packs
      || has partly_used plan.actions.repack_packs)
    ≡ true
unfolding has bytes_eq
is_planned = refl

returned : (execute working plan).1 ≡ none
unfolding execute delete_packs delete_files stops repack_packs after_repack merge insert ignored
    update_index saved finish_execute after_index remove_old bytes_eq
returned = refl

execute-tried_example : tried partly_used (execute working plan).0 ≡ true
execute-tried_example = execute-tried working plan partly_used refl returned is_planned
