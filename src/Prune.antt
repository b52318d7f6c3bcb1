-- ===== src/Prune.antt =====
-- internal/repository/prune.go: what to remove and what to repack.
-- uint and uint64 have 64 bits and wrap around. Sets of packs and maps by pack or by blob are
-- association lists. Progress output is not modelled.
pub mod Select
pub mod Decide
pub mod Plan
pub mod Execute
use restic.Prelude.{
  ℕ, ◌+◌, ◌-◌, ◌*◌, ◌%◌, ◌^◌, Bool, Option, none, some, List, [], ◌∷◌, if◌then◌else◌, bytes_eq,
}
use restic.Blob.{BlobId, BlobType, invalid_blob, BlobHandle, handle_eq}

abbrev pub add64 : ℕ → ℕ → ℕ
add64 a b = (a + b) % 2 ^ 64

abbrev pub sub64 : ℕ → ℕ → ℕ
sub64 a b = (a + 2 ^ 64 - b) % 2 ^ 64

abbrev pub mul64 : ℕ → ℕ → ℕ
mul64 a b = (a * b) % 2 ^ 64

pub data PruneError : Type 0 where
  index_incomplete packs_missing size_not_matching : PruneError
  too_few_connections needs_compression : PruneError
  selection_panic : PruneError

pub record PruneOptions : Type 0 where
  pub dry_run : Bool
  pub unsafe_recovery : Bool
  pub max_unused_bytes : ℕ → ℕ
  pub max_repack_bytes : ℕ
  pub repack_cacheable_only : Bool
  pub repack_small : Bool
  pub repack_uncompressed : Bool

pub record BlobStats : Type 0 where
  pub used : ℕ
  pub duplicate : ℕ
  pub unused : ℕ
  pub remove : ℕ
  pub repack : ℕ
  pub repackrm : ℕ

pub record SizeStats : Type 0 where
  pub used : ℕ
  pub duplicate : ℕ
  pub unused : ℕ
  pub remove : ℕ
  pub repack : ℕ
  pub repackrm : ℕ
  pub unref : ℕ
  pub uncompressed : ℕ

pub record PackStats : Type 0 where
  pub used : ℕ
  pub unused : ℕ
  pub partly_used : ℕ
  pub unref : ℕ
  pub keep : ℕ
  pub repack : ℕ
  pub remove : ℕ

pub record PruneStats : Type 0 where
  pub blobs : BlobStats
  pub size : SizeStats
  pub packs : PackStats

abbrev pub no_stats : PruneStats
no_stats = record {
  blobs = record { used = 0; duplicate = 0; unused = 0; remove = 0; repack = 0; repackrm = 0 };
  size = record {
    used = 0;
    duplicate = 0;
    unused = 0;
    remove = 0;
    repack = 0;
    repackrm = 0;
    unref = 0;
    uncompressed = 0;
  };
  packs = record {
    used = 0;
    unused = 0;
    partly_used = 0;
    unref = 0;
    keep = 0;
    repack = 0;
    remove = 0;
  };
}

pub record PackInfo : Type 0 where
  pub used_blobs : ℕ
  pub unused_blobs : ℕ
  pub duplicate_blobs : ℕ
  pub used_size : ℕ
  pub unused_size : ℕ
  pub tpe : BlobType
  pub uncompressed : Bool

-- The zero value, which a map returns for a missing key.
abbrev pub no_info : PackInfo
no_info = record {
  used_blobs = 0;
  unused_blobs = 0;
  duplicate_blobs = 0;
  used_size = 0;
  unused_size = 0;
  tpe = invalid_blob;
  uncompressed = Bool.false;
}

-- usedBlobs: the counter of each blob in the set.
abbrev pub Counts : Type 0
Counts = List (BlobHandle × ℕ)

-- indexPack
abbrev pub Infos : Type 0
Infos = List (BlobId × PackInfo)

unfoldable pub get_count : BlobHandle → Counts → Option ℕ
get_count bh [] = none
get_count bh ((x, n) ∷ rest) = if handle_eq x bh then some n else get_count bh rest

unfoldable pub set_count : BlobHandle → ℕ → Counts → Counts
set_count bh k [] = (bh, k) ∷ []
set_count bh k ((x, n) ∷ rest) =
    if handle_eq x bh then (x, k) ∷ rest else (x, n) ∷ set_count bh k rest

unfoldable pub get_info : BlobId → Infos → Option PackInfo
get_info id [] = none
get_info id ((x, p) ∷ rest) = if bytes_eq x id then some p else get_info id rest

unfoldable pub set_info : BlobId → PackInfo → Infos → Infos
set_info id q [] = (id, q) ∷ []
set_info id q ((x, p) ∷ rest) = if bytes_eq x id then (x, q) ∷ rest else (x, p) ∷ set_info id q rest

unfoldable pub delete_info : BlobId → Infos → Infos
delete_info id [] = []
delete_info id ((x, p) ∷ rest) =
    if bytes_eq x id then delete_info id rest else (x, p) ∷ delete_info id rest
