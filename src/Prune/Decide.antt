-- ===== src/Prune/Decide.antt =====
-- decidePackAction: which packs are removed, repacked or kept. The listing of the pack files is
-- a list of IDs and sizes; `sort` stands for sort.Slice with the comparison it is given.
pub mod Examined
pub mod Unlisted
pub mod Safe
pub mod Bounds
use restic.Prelude.{
  ℕ, ◌+◌, ◌*◌, ◌/◌, Bool, true, false, not, ◌&&◌, ◌||◌, Option, none, some, List, [], ◌∷◌, ◌++◌,
  ◌==◌, ltb, leb, if◌then◌else◌, length, Result, ok, err, ◌>>=◌,
}
use restic.Blob.{BlobId, BlobType, invalid_blob, data_blob, tree_blob, type_eq, insert_id}
use restic.Prune.{
  add64, sub64, mul64, PruneError, packs_missing, size_not_matching, PruneOptions, PruneStats,
  PackInfo, Infos, get_info, delete_info,
}

-- packInfoWithID
pub record Candidate : Type 0 where
  pub id : BlobId
  pub info : PackInfo
  pub must_compress : Bool

pub record Decision : Type 0 where
  pub remove_first : List BlobId
  pub remove : List BlobId
  pub candidates : List Candidate
  pub small_candidates : List Candidate
  pub infos : Infos
  pub stats : PruneStats

-- The sets of the PrunePlan that is returned, with the statistics.
pub record Actions : Type 0 where
  pub remove_packs_first : List BlobId
  pub remove_packs : List BlobId
  pub repack_packs : List BlobId
  pub ignore_packs : List BlobId
  pub stats : PruneStats

abbrev pub total_size : PackInfo → ℕ
total_size p = add64 p.unused_size p.used_size

unfoldable pub target_pack_size : PruneOptions → ℕ → ℕ
target_pack_size opts pack_size = if opts.repack_small then pack_size / 5 * 4 else pack_size / 25

-- The statistics of a pack before the decision.
unfoldable pub count_pack : PackInfo → PruneStats → PruneStats
count_pack p stats =
    let packs = stats.packs in
    let counted : PruneStats = record stats {
      packs =
          (if p.used_blobs == 0
            then record packs { unused = add64 packs.unused 1 }
            else if p.unused_blobs == 0
            then record packs { used = add64 packs.used 1 }
            else record packs { partly_used = add64 packs.partly_used 1 });
    } in
    if p.uncompressed
    then record counted {
      size = record counted.size { uncompressed = add64 counted.size.uncompressed (total_size p) };
    }
    else counted

unfoldable pub count_removed : PackInfo → PruneStats → PruneStats
count_removed p stats = record stats {
  blobs = record stats.blobs { remove = add64 stats.blobs.remove p.unused_blobs };
  size = record stats.size { remove = add64 stats.size.remove p.unused_size };
}

unfoldable pub count_kept : ℕ → PruneStats → PruneStats
count_kept n stats = record stats { packs = record stats.packs { keep = add64 stats.packs.keep n } }

unfoldable pub must_compress : PruneOptions → ℕ → PackInfo → Bool
must_compress opts version p =
    if leb 2 version
    then (type_eq p.tpe tree_blob || opts.repack_uncompressed) && p.uncompressed
    else false

-- The decision about an indexed pack of the right size.
unfoldable pub decide_pack : PruneOptions → ℕ → ℕ → BlobId → ℕ → PackInfo → Decision → Decision
unfolding count_removed count_kept
decide_pack opts version target id pack_size p d =
    let compress = must_compress opts version p in
    let candidate : Candidate = record { id = id; info = p; must_compress = compress } in
    if p.used_blobs == 0
    then record d { remove = insert_id id d.remove; stats = count_removed p d.stats }
    else if opts.repack_cacheable_only && type_eq p.tpe data_blob
    then record d { stats = count_kept 1 d.stats }
    else if p.unused_blobs == 0 && not (type_eq p.tpe invalid_blob) && not compress
    then if leb target pack_size
      then record d { stats = count_kept 1 d.stats }
      else record d { small_candidates = d.small_candidates ++ candidate ∷ [] }
    else record d { candidates = d.candidates ++ candidate ∷ [] }

unfoldable pub unindexed : BlobId → ℕ → Decision → Decision
unindexed id pack_size d = record d {
  remove_first = insert_id id d.remove_first;
  stats = record d.stats {
    size = record d.stats.size { unref = add64 d.stats.size.unref pack_size };
  };
}

-- The callback of repo.List.
unfoldable pub examine : PruneOptions → ℕ → ℕ → BlobId → ℕ → Decision → Result PruneError Decision
unfolding unindexed count_pack
examine opts version target id pack_size d = elim (get_info id d.infos) [
  | none ↦ ok (unindexed id pack_size d)
  | some p ↦
      if not (total_size p == pack_size) && not (p.used_blobs == 0)
      then err size_not_matching
      else ok (
          decide_pack opts version target id pack_size p
            (record d { stats = count_pack p d.stats; infos = delete_info id d.infos }))
]

unfoldable pub examine_all :
    PruneOptions → ℕ → ℕ → List (BlobId × ℕ) → Decision → Result PruneError Decision
examine_all opts version target [] d = ok d
examine_all opts version target ((id, size) ∷ files) d = do
  d' ← examine opts version target id size d
  examine_all opts version target files d'

-- The missing packs that are not needed are ignored, the others are an error.
unfoldable pub ignore_missing :
    Infos → List BlobId → PruneStats → Result PruneError (List BlobId × PruneStats)
unfolding count_removed
ignore_missing [] ignored stats = ok (ignored, stats)
ignore_missing ((id, p) ∷ rest) ignored stats = elim (p.used_blobs == 0) [
  | true ↦ ignore_missing rest (insert_id id ignored) (count_removed p stats)
  | false ↦ err packs_missing
]

-- The comparison that is handed to sort.Slice.
unfoldable pub picked_before : ℕ → Candidate → Candidate → Bool
picked_before target a b =
    let pi = a.info in
    let pj = b.info in
    if not (type_eq pi.tpe data_blob) && type_eq pj.tpe data_blob
    then true
    else if not (type_eq pj.tpe data_blob) && type_eq pi.tpe data_blob
    then false
    else if ltb (total_size pi) target && leb target (total_size pj)
    then true
    else if ltb (total_size pj) target && leb target (total_size pi)
    then false
    else ltb (mul64 pj.unused_size pi.used_size) (mul64 pi.unused_size pj.used_size)

unfoldable pub count_repacked : PackInfo → PruneStats → PruneStats
count_repacked p stats =
    let blobs = stats.blobs in
    let size = stats.size in
    record stats {
      blobs = record blobs {
        repack = add64 blobs.repack (add64 p.unused_blobs p.used_blobs);
        repackrm = add64 blobs.repackrm p.unused_blobs;
      };
      size = record size {
        repack = add64 size.repack (total_size p);
        repackrm = add64 size.repackrm p.unused_size;
        uncompressed =
            (if p.uncompressed then sub64 size.uncompressed (total_size p) else size.uncompressed);
      };
    }

-- Whether the loop over the candidates repacks this one.
unfoldable pub repacks : PruneOptions → ℕ → ℕ → PruneStats → Candidate → Bool
repacks opts target max_unused stats c =
    let p = c.info in
    let size = stats.size in
    let reached_unused = ltb (sub64 (sub64 size.unused size.remove) size.repackrm) max_unused in
    let reached_repack =
      leb opts.max_repack_bytes (add64 (add64 size.repack p.unused_size) p.used_size) in
    let large_enough = leb target (total_size p) in
    if reached_repack
    then false
    else if not (type_eq p.tpe data_blob) || c.must_compress
    then true
    else if reached_unused && large_enough
    then false
    else true

unfoldable pub choose :
    PruneOptions → ℕ → ℕ → List Candidate → List BlobId → PruneStats → List BlobId × PruneStats
unfolding count_repacked count_kept
choose opts target max_unused [] repack stats = (repack, stats)
choose opts target max_unused (c ∷ cs) repack stats =
    let go = repacks opts target max_unused stats c in
    let repack' = if go then insert_id c.id repack else repack in
    let stats' = if go then count_repacked c.info stats else count_kept 1 stats in
    choose opts target max_unused cs repack' stats'

unfoldable pub finish : ℕ → List BlobId → List BlobId → List BlobId → PruneStats → PruneStats
finish version remove_first remove repack stats =
    let packs : PruneStats = record stats {
      packs = record stats.packs {
        unref = length remove_first;
        repack = length repack;
        remove = length remove;
      };
    } in
    if ltb version 2 then record packs { size = record packs.size { uncompressed = 0 } } else packs

module _ (sort : (Candidate → Candidate → Bool) → List Candidate → List Candidate) where
  -- What follows the check of the missing packs.
  unfoldable pub select_repacks :
      PruneOptions → ℕ → ℕ → Decision → List BlobId → PruneStats → Actions
  unfolding finish choose
  select_repacks opts version target d ignored stats =
      let few = ltb (length d.small_candidates) 10 in
      let stats1 = if few then count_kept (length d.small_candidates) stats else stats in
      let all = if few then d.candidates else d.candidates ++ d.small_candidates in
      let (repack, stats2) =
        choose opts target (opts.max_unused_bytes stats1.size.used)
          (sort (picked_before target) all) [] stats1 in
      record {
        remove_packs_first = d.remove_first;
        remove_packs = d.remove;
        repack_packs = repack;
        ignore_packs = ignored;
        stats = finish version d.remove_first d.remove repack stats2;
      }

  -- For a repository of a version and a pack size, and the listing `files`.
  unfoldable pub decide_pack_action :
      PruneOptions → ℕ → ℕ → List (BlobId × ℕ) → Infos → PruneStats → Result PruneError Actions
  unfolding examine_all examine decide_pack ignore_missing select_repacks
  decide_pack_action opts version pack_size files infos stats = do
    let target = target_pack_size opts pack_size
    let start : Decision = record {
      remove_first = [];
      remove = [];
      candidates = [];
      small_candidates = [];
      infos = infos;
      stats = stats;
    }
    d ← examine_all opts version target files start
    (ignored, stats1) ← ignore_missing d.infos [] d.stats
    ok (select_repacks opts version target d ignored stats1)
