-- ===== src/Prune/Select.antt =====
-- packInfoFromIndex: which copy of each used blob is kept, and what each pack holds.
-- ListBlobs visits the same list each time.
use restic.Prelude.{
  ℕ, ◌+◌, ◌-◌, Bool, true, false, not, ◌||◌, Option, none, some, List, [], ◌∷◌, ◌==◌, ltb,
  if◌then◌else◌, Result, ok, err,
}
use restic.Blob.{BlobId, BlobType, invalid_blob, num_blob_types, type_eq, PackedBlob, is_compressed}
use restic.Pack.{sizes_of}
use restic.Prune.{
  add64, sub64, PruneError, index_incomplete, selection_panic, PruneStats, PackInfo, no_info,
  Counts, Infos, get_count, set_count, get_info, set_info,
}

-- The first callback: the counter of a used blob, saturated at 255.
unfoldable pub count_blob : PackedBlob → Counts → Counts
count_blob b counts = elim (get_count b.handle counts) [
  | none ↦ counts
  | some count ↦ set_count b.handle (if ltb count 255 then count + 1 else count) counts
]

unfoldable pub count_blobs : List PackedBlob → Counts → Counts
count_blobs [] counts = counts
count_blobs (b ∷ bs) counts = count_blobs bs (count_blob b counts)

-- Whether missingBlobs is not empty.
unfoldable pub some_missing : Counts → Bool
some_missing [] = false
some_missing ((x, n) ∷ rest) = if n == 0 then true else some_missing rest

unfoldable pub initial_infos : List (BlobId × ℕ) → Infos
initial_infos [] = []
initial_infos ((id, size) ∷ rest) =
    (id, record no_info { tpe = num_blob_types; used_size = size }) ∷ initial_infos rest

pub record Selection : Type 0 where
  pub counts : Counts
  pub infos : Infos
  pub stats : PruneStats
  pub has_duplicates : Bool

abbrev info_of : BlobId → Infos → PackInfo
info_of id infos = elim (get_info id infos) [ none ↦ no_info | some p ↦ p ]

abbrev count_of : Option ℕ → ℕ
count_of none = 0
count_of (some n) = n

-- The type of a pack after one more blob: mixed packs are marked as invalid.
unfoldable pub next_type : BlobType → BlobType → BlobType
next_type tpe t =
    let set = if type_eq tpe num_blob_types then t else tpe in
    if type_eq set t then set else invalid_blob

add_duplicate : ℕ → PackInfo → PackInfo
add_duplicate size ip = record ip {
  unused_size = add64 ip.unused_size size;
  unused_blobs = add64 ip.unused_blobs 1;
  duplicate_blobs = add64 ip.duplicate_blobs 1;
}

add_used : ℕ → PackInfo → PackInfo
add_used size ip = record ip {
  used_size = add64 ip.used_size size;
  used_blobs = add64 ip.used_blobs 1;
}

add_unused : ℕ → PackInfo → PackInfo
add_unused size ip = record ip {
  unused_size = add64 ip.unused_size size;
  unused_blobs = add64 ip.unused_blobs 1;
}

-- The switch of the second callback on the number of copies.
place_blob : ℕ → ℕ → PackInfo → Selection → PackInfo × Selection
unfolding add_duplicate add_used add_unused
place_blob count size ip s =
    let blobs = s.stats.blobs in
    let sizes = s.stats.size in
    if ltb 1 count
    then (
      add_duplicate size ip,
      record s {
        has_duplicates = true;
        stats = record s.stats {
          size = record sizes { duplicate = add64 sizes.duplicate size };
          blobs = record blobs { duplicate = add64 blobs.duplicate 1 };
        };
      },
    )
    else if count == 1
    then (
      add_used size ip,
      record s {
        stats = record s.stats {
          size = record sizes { used = add64 sizes.used size };
          blobs = record blobs { used = add64 blobs.used 1 };
        };
      },
    )
    else (
      add_unused size ip,
      record s {
        stats = record s.stats {
          size = record sizes { unused = add64 sizes.unused size };
          blobs = record blobs { unused = add64 blobs.unused 1 };
        };
      },
    )

-- The second callback.
classify_blob : PackedBlob → Selection → Selection
unfolding place_blob
classify_blob b s =
    let ip = info_of b.pack_id s.infos in
    let typed : PackInfo = record ip { tpe = next_type ip.tpe b.type } in
    let (placed, s') = place_blob (count_of (get_count b.handle s.counts)) b.len typed s in
    let done : PackInfo =
      (if not (is_compressed b.blob) then record placed { uncompressed = true } else placed) in
    record s' { infos = set_info b.pack_id done s.infos }

classify_blobs : List PackedBlob → Selection → Selection
unfolding classify_blob
classify_blobs [] s = s
classify_blobs (b ∷ bs) s = classify_blobs bs (classify_blob b s)

-- A duplicate becomes used.
keep_copy : PackedBlob → PackInfo → Selection → Selection
keep_copy b ip s =
    let blobs = s.stats.blobs in
    let sizes = s.stats.size in
    record s {
      counts = set_count b.handle 1 s.counts;
      infos =
          set_info b.pack_id
            (record ip {
              used_size = add64 ip.used_size b.len;
              used_blobs = add64 ip.used_blobs 1;
              unused_size = sub64 ip.unused_size b.len;
              unused_blobs = sub64 ip.unused_blobs 1;
            })
            s.infos;
      stats = record s.stats {
        size = record sizes {
          used = add64 sizes.used b.len;
          duplicate = sub64 sizes.duplicate b.len;
        };
        blobs = record blobs { used = add64 blobs.used 1; duplicate = sub64 blobs.duplicate 1 };
      };
    }

-- A duplicate stays unused; 0 stands for a single copy that is left.
drop_copy : PackedBlob → ℕ → PackInfo → Selection → Selection
drop_copy b count ip s = record s {
  counts = set_count b.handle (if count == 2 then 0 else count - 1) s.counts;
  infos = set_info b.pack_id ip s.infos;
}

-- The third callback, for a blob with the counter `count`.
choose_copy : PackedBlob → ℕ → Selection → Selection
unfolding keep_copy drop_copy
choose_copy b count s =
    let ip = info_of b.pack_id s.infos in
    if ltb 0 ip.used_blobs || ip.duplicate_blobs == ip.unused_blobs || count == 0
    then keep_copy b ip s
    else drop_copy b count ip s

unfoldable pub resolve_blob : PackedBlob → Selection → Selection
unfolding choose_copy
resolve_blob b s = elim (get_count b.handle s.counts) [
  | none ↦ s
  | some count ↦ if count == 1 then s else choose_copy b count s
]

unfoldable pub resolve_blobs : List PackedBlob → Selection → Selection
resolve_blobs [] s = s
resolve_blobs (b ∷ bs) s = resolve_blobs bs (resolve_blob b s)

-- The sanity check.
unfoldable pub all_one : Counts → Bool
all_one [] = true
all_one ((x, n) ∷ rest) = if n == 1 then all_one rest else false

unfoldable pub pack_info_from_index :
    List PackedBlob → Counts → PruneStats → Result PruneError Selection
unfolding classify_blobs
pack_info_from_index blobs used stats =
    let counts = count_blobs blobs used in
    let start : Selection = record {
      counts = counts;
      infos = initial_infos (sizes_of true blobs []);
      stats = stats;
      has_duplicates = false;
    } in
    let classified = classify_blobs blobs start in
    let resolved =
      (if classified.has_duplicates then resolve_blobs blobs classified else classified) in
    if some_missing counts
    then err index_incomplete
    else if all_one resolved.counts
    then ok resolved
    else err selection_panic
