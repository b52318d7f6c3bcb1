-- ===== src/Samples/Recoveries.antt =====
-- A prune plan with UnsafeRecovery, for a repository with one blob.
use restic.Prelude.{ℕ, ◌≡◌, refl, true, none, List, [], ◌∷◌, ok, bytes_eq, Bool}
use restic.Blob.{BlobId, PackedBlob, data_blob, handle_eq, type_eq, is_compressed}
use restic.Pack.{sizes_of, add_size, calculate_entry_size}
use restic.Prune.{
  PruneOptions, Counts, no_stats, get_count, set_count, get_info, set_info, delete_info,
}
use restic.Prune.Select.{
  count_blob, count_blobs, some_missing, initial_infos, next_type, all_one, pack_info_from_index,
}
use restic.Prune.Decide.{Candidate, decide_pack_action, must_compress, target_pack_size}
use restic.Prune.Plan.{PrunePlan, effective, plan_prune}
use restic.Prune.Plan.Recovery.{plan_prune-recovery}

abbrev same_order : (Candidate → Candidate → Bool) → List Candidate → List Candidate
same_order before cs = cs

abbrev recovering : PruneOptions
recovering = record {
  dry_run = Bool.false;
  unsafe_recovery = true;
  max_unused_bytes = λ used. 0;
  max_repack_bytes = 1000;
  repack_cacheable_only = Bool.false;
  repack_small = Bool.false;
  repack_uncompressed = Bool.false;
}

abbrev only_blob : PackedBlob
only_blob = record {
  blob = record {
    handle = record { id = 9 ∷ []; type = data_blob };
    len = 100;
    offset = 0;
    uncompressed = 0;
  };
  pack_id = 1 ∷ [];
}

abbrev used : Counts
used = (only_blob.handle, 0) ∷ []

abbrev files : List (BlobId × ℕ)
files = (1 ∷ [], 173) ∷ []

abbrev recovery_plan : PrunePlan
recovery_plan = record {
  actions = record {
    remove_packs_first = [];
    remove_packs = [];
    repack_packs = [];
    ignore_packs = [];
    stats = record {
      blobs = record no_stats.blobs { used = 1 };
      size = record no_stats.size { used = 100; uncompressed = 173 };
      packs = record no_stats.packs { used = 1; keep = 1 };
    };
  };
  keep_blobs = none;
  opts = record recovering { max_repack_bytes = 0 };
}

recovers :
    plan_prune same_order recovering 2 2 16000000 (only_blob ∷ []) used files ≡ ok recovery_plan
unfolding plan_prune effective pack_info_from_index some_missing count_blobs count_blob get_count
    set_count handle_eq type_eq bytes_eq initial_infos sizes_of add_size calculate_entry_size
    get_info set_info delete_info next_type is_compressed all_one decide_pack_action must_compress
    target_pack_size
recovers = refl

plan_prune-recovery_example :
    (recovery_plan.actions.repack_packs ≡ []) × (recovery_plan.keep_blobs ≡ none)
plan_prune-recovery_example =
    plan_prune-recovery same_order recovering 2 2 16000000 (only_blob ∷ []) used files recovery_plan
      refl recovers
