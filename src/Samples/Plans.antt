-- ===== src/Samples/Plans.antt =====
-- A prune plan, a list of patterns and a list of snapshots.
use restic.Prelude.{
  ℕ, ◌+◌, ◌-◌, ◌*◌, ◌/◌, ◌≤◌, ◌≡◌, ◌≢◌, refl, false, true, Bool, Option, none, some, List, [], ◌∷◌,
  ◌++◌, arith, length, take, map, ok, bytes_eq,
}
use restic.Blob.{BlobId, Bytes, data_blob, has_id, insert_id, type_eq}
use restic.Prune.{PruneOptions, no_stats, PackInfo, Infos, get_info, delete_info}
use restic.Prune.Decide.{Candidate, Actions, decide_pack_action, repacks, must_compress}
use restic.Prune.Decide.Unlisted.{IsListing, has_file}
use restic.Prune.Plan.{PrunePlan}
use restic.Prune.Execute.{World, execute}
use restic.Prune.Execute.Safe.{IsSafeTrace, execute-IsSafeTrace}
use restic.Prune.Decide.Bounds.{decide_pack_action-repack_le}
use restic.Prune.Decide.Safe.{
  Unneeded, Listed, decide_pack_action-removed, decide_pack_action-needed,
}
use restic.Filter.{
  Pattern, prepare_str, split_path, match_pattern, wildcards, match_plain, match_offsets,
  match_parts, match_part,
}
use restic.Filter.Listing.{list, child_of, updated}
use restic.Filter.Listing.NoBreak.{full_loop, list-full_loop}
use mathlib.Core.List.{Perm}
use restic.Policy.Sorted.{IsSorted}
use restic.Policy.{
  unlimited, limited, Snapshot, Duration, ExpirePolicy, Calendar, KeepReason, apply_policy,
}
use restic.Policy.Kept.{apply_policy-last, apply_policy-partition}

abbrev same_order : (Candidate → Candidate → Bool) → List Candidate → List Candidate
same_order before cs = cs

abbrev options : PruneOptions
options = record {
  dry_run = false;
  unsafe_recovery = false;
  max_unused_bytes = λ used. 0;
  max_repack_bytes = 1000;
  repack_cacheable_only = false;
  repack_small = false;
  repack_uncompressed = false;
}

abbrev unused_pack : PackInfo
unused_pack = record {
  used_blobs = 0;
  unused_blobs = 2;
  duplicate_blobs = 0;
  used_size = 50;
  unused_size = 100;
  tpe = data_blob;
  uncompressed = false;
}

abbrev mixed_pack : PackInfo
mixed_pack = record unused_pack { used_blobs = 1; used_size = 300 }

abbrev id1 : BlobId
id1 = 1 ∷ []

abbrev id2 : BlobId
id2 = 2 ∷ []

-- One pack holds nothing needed, one is partly used, and one is not indexed.
abbrev infos : Infos
infos = (id1, unused_pack) ∷ (id2, mixed_pack) ∷ []

abbrev files : List (BlobId × ℕ)
files = (id1, 150) ∷ (id2, 400) ∷ (3 ∷ [], 70) ∷ []

abbrev plan : Actions
plan = record {
  remove_packs_first = (3 ∷ []) ∷ [];
  remove_packs = id1 ∷ [];
  repack_packs = id2 ∷ [];
  ignore_packs = [];
  stats = record {
    blobs = record { used = 0; duplicate = 0; unused = 0; remove = 2; repack = 3; repackrm = 2 };
    size = record {
      used = 0;
      duplicate = 0;
      unused = 0;
      remove = 100;
      repack = 400;
      repackrm = 100;
      unref = 70;
      uncompressed = 0;
    };
    packs = record {
      used = 0;
      unused = 1;
      partly_used = 1;
      unref = 1;
      keep = 0;
      repack = 1;
      remove = 1;
    };
  };
}

planned : decide_pack_action same_order options 2 16000000 files infos no_stats ≡ ok plan
unfolding decide_pack_action get_info bytes_eq delete_info insert_id repacks type_eq must_compress
planned = refl

decide_pack_action-repack_le_example : plan.stats.size.repack ≤ 1000
decide_pack_action-repack_le_example =
    decide_pack_action-repack_le same_order options 2 16000000 files infos no_stats plan
      (omega arith) planned

files-IsListing : IsListing files
unfolding IsListing has_file bytes_eq
files-IsListing = (refl, (refl, (refl, tt)))

decide_pack_action-removed_example :
    (has_id id1 plan.remove_packs ≡ true → Unneeded infos id1)
    × (has_id id1 plan.remove_packs_first ≡ true → get_info id1 infos ≡ none)
decide_pack_action-removed_example =
    decide_pack_action-removed same_order options 2 16000000 files infos no_stats plan id1
      files-IsListing planned

abbrev whole_plan : PrunePlan
whole_plan = record { actions = plan; keep_blobs = some []; opts = options }

-- Nothing fails but the removals.
abbrev world : World
world = record {
  cancelled = λ t. false;
  cancel_text = [];
  index_ids = [];
  remove_error = λ t. some [];
  repack_result = λ t. ok [];
  rewrite_error = λ t. none;
  fallback_error = λ t. none;
}

execute-IsSafeTrace_example :
    IsSafeTrace world infos (execute world whole_plan).0
    × (options.dry_run ≡ true → execute world whole_plan ≡ ([], none))
execute-IsSafeTrace_example =
    execute-IsSafeTrace same_order options 2 16000000 files infos no_stats world whole_plan
      files-IsListing planned refl

is_indexed : get_info id2 infos ≡ some mixed_pack
unfolding get_info bytes_eq
is_indexed = refl

is_needed : mixed_pack.used_blobs ≢ 0
is_needed h = cc

decide_pack_action-needed_example : Listed id2 mixed_pack files
decide_pack_action-needed_example =
    decide_pack_action-needed same_order options 2 16000000 files infos no_stats plan id2 mixed_pack
      planned is_indexed is_needed

-- Matching by equality of the strings.
abbrev plain_glob : Bytes → Bytes → Option Bool
plain_glob pattern s = some (bytes_eq pattern s)

abbrev pattern_a : Pattern
pattern_a = record {
  original = 97 ∷ [];
  parts = record { pattern = 97 ∷ []; is_simple = true } ∷ [];
  is_negated = false;
}

abbrev patterns : List Pattern
patterns = pattern_a ∷ pattern_a ∷ []

-- "/a"
abbrev path : Bytes
path = 47 ∷ 97 ∷ []

path_split : prepare_str path ≡ ok ((47 ∷ []) ∷ (97 ∷ []) ∷ [])
unfolding prepare_str split_path restic.Prelude.Strings.split
path_split = refl

looped :
    full_loop plain_glob false ((47 ∷ []) ∷ (97 ∷ []) ∷ []) patterns (false, false)
    ≡ ok (true, true)
unfolding full_loop match_pattern wildcards match_plain bytes_eq match_offsets match_parts
    match_part child_of updated
looped = refl

list-full_loop_example : list plain_glob patterns false path ≡ ok (true, true)
list-full_loop_example =
    list-full_loop plain_glob patterns false path ((47 ∷ []) ∷ (97 ∷ []) ∷ []) (true, true)
      path_split looped

-- A calendar of 100 instants in a day and 360 days in a year.
abbrev calendar : Calendar
calendar = record {
  year = λ t. t / 36000;
  month = λ t. t / 3000;
  day = λ t. t / 100;
  hour = λ t. t / 4;
  iso_year = λ t. t / 36000;
  iso_week = λ t. t / 700;
}

abbrev threshold : ℕ → Duration → ℕ
threshold latest d = latest - (d.hours * 4 + d.days * 100)

abbrev never : Duration
never = record { hours = 0; days = 0; months = 0; years = 0 }

abbrev policy : ExpirePolicy
policy = record {
  last = limited 2;
  hourly = limited 0;
  daily = limited 1;
  weekly = limited 0;
  monthly = limited 0;
  yearly = unlimited;
  within = never;
  within_hourly = never;
  within_daily = record never { days = 2 };
  within_weekly = never;
  within_monthly = never;
  within_yearly = never;
  tag_lists = [];
}

abbrev made_at : ℕ → Snapshot
made_at t = record { id = t ∷ []; time = t; tags = [] }

abbrev snapshots : List Snapshot
snapshots = made_at 100 ∷ made_at 40000 ∷ made_at 40001 ∷ made_at 39000 ∷ []

apply_policy-last_example :
    (sorted : List Snapshot) × IsSorted snapshots sorted
    × (take 2 (apply_policy calendar threshold 50000 snapshots policy).keep ≡ take 2 sorted)
apply_policy-last_example = apply_policy-last calendar threshold 50000 2 snapshots policy refl

apply_policy-partition_example :
    Perm
      ((apply_policy calendar threshold 50000 snapshots policy).keep
        ++ (apply_policy calendar threshold 50000 snapshots policy).remove)
      snapshots
    × (map
          (λ (k : KeepReason). k.snapshot)
          (apply_policy calendar threshold 50000 snapshots policy).reasons
        ≡ (apply_policy calendar threshold 50000 snapshots policy).keep)
apply_policy-partition_example = apply_policy-partition calendar threshold 50000 snapshots policy
