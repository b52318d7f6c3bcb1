-- ===== src/Index/IndexMap.antt =====
-- indexMap of indexmap.go: a chained hash table over a hashedArrayTree of entries.
-- maphash is a parameter: `mh` is the hash of an ID under the seed that this map has drawn, so each
-- map has its own. A bucket holds the position of the newest entry of its chain, and position 0
-- ends a chain.
pub mod Chains
pub mod Content
pub mod Walks
pub mod FirstIndex
pub mod Grow
pub mod Prepare
pub mod Add
pub mod Lookup
use Prim.Native.Nat.{bit_and}
use restic.Prelude.{
  ℕ, zero, suc, ◌+◌, ◌-◌, ◌*◌, Bool, true, false, not, Option, none, some, List, [], ◌∷◌, ◌==◌, leb,
  ltb, ◌||◌, if◌then◌else◌, length, replicate, set, get_elem?, Result, ok, err, ◌>>=◌, bytes_eq,
}
use restic.Blob.{BlobId}
use restic.Index.HashedArrayTree.{HashedArrayTree, new_hat, alloc, ref, put}

pub record IndexEntry : Type 0 where
  pub id : BlobId
  pub next : ℕ
  pub pack_index : ℕ
  pub offset : ℕ
  pub len : ℕ
  pub uncompressed : ℕ

abbrev pub zero_entry : IndexEntry
zero_entry = record {
  id = replicate 32 0;
  next = 0;
  pack_index = 0;
  offset = 0;
  len = 0;
  uncompressed = 0;
}

pub record IndexMap : Type 0 where
  pub buckets : List ℕ
  pub numentries : ℕ
  pub mh : BlobId → ℕ
  pub block_list : HashedArrayTree IndexEntry

-- The zero value of the struct, with the hash under the seed that it draws.
abbrev pub empty_map : (BlobId → ℕ) → IndexMap
empty_map mh = record {
  buckets = [];
  numentries = 0;
  block_list = record { mask = 0; mask_shift = 0; block_size = 0; size = 0; block_list = [] };
  mh = mh;
}

-- An index out of range; `no_fuel` belongs to the model only.
pub data Panic : Type 0 where
  out_of_bounds no_fuel : Panic

-- resolve
unfoldable pub resolve : HashedArrayTree IndexEntry → ℕ → Result Panic IndexEntry
resolve bl idx = elim (ref bl idx) [ none ↦ err out_of_bounds | some e ↦ ok e ]

unfoldable pub bucket : List ℕ → ℕ → Result Panic ℕ
bucket buckets h = elim (get_elem? buckets h) [ none ↦ err out_of_bounds | some i ↦ ok i ]

-- init: 64 buckets, and a first entry that serves as null.
unfoldable pub init : IndexMap → IndexMap
init m = record m {
  buckets = replicate 64 0;
  block_list = (alloc zero_entry (new_hat {A = IndexEntry})).0;
}

-- The loop of foreach over the positions from `i` on, `n` of them.
pub foreach_from : HashedArrayTree IndexEntry → ℕ → ℕ → Result Panic (List IndexEntry)
foreach_from bl zero i = ok []
foreach_from bl (suc n) i = do e ← resolve bl i; rest ← foreach_from bl n (i + 1); ok (e ∷ rest)

-- foreach: the entries that fn is called with, where it always returns true.
unfoldable pub foreach : IndexMap → Result Panic (List IndexEntry)
unfolding foreach_from
foreach m = foreach_from m.block_list (m.block_list.size - 1) 1

-- The loops along a chain, from position `ei`.
pub walk : ℕ → HashedArrayTree IndexEntry → BlobId → ℕ → Result Panic (List IndexEntry)
walk zero bl id ei = if ei == 0 then ok [] else err no_fuel
walk (suc fuel) bl id ei = if ei == 0 then ok [] else (do
  e ← resolve bl ei
  rest ← walk fuel bl id e.next
  (if not (bytes_eq e.id id) then ok rest else ok (e ∷ rest)))

pub find : ℕ → HashedArrayTree IndexEntry → BlobId → ℕ → Result Panic (Option IndexEntry)
find zero bl id ei = if ei == 0 then ok none else err no_fuel
find (suc fuel) bl id ei = if ei == 0 then ok none else (do
  e ← resolve bl ei
  elim (bytes_eq e.id id) [ true ↦ ok (some e) | false ↦ find fuel bl id e.next ])

-- `none` is the index -1.
earlier : ℕ → Option ℕ → Option ℕ
earlier cur none = some cur
earlier cur (some idx) = if ltb cur idx then some cur else some idx

pub find_first : ℕ → HashedArrayTree IndexEntry → BlobId → ℕ → Option ℕ → Result Panic (Option ℕ)
find_first zero bl id ei idx = if ei == 0 then ok idx else err no_fuel
find_first (suc fuel) bl id ei idx = if ei == 0 then ok idx else (do
  e ← resolve bl ei
  find_first fuel bl id e.next (if not (bytes_eq e.id id) then idx else earlier ei idx))

module _ (sum : BlobId → ℕ) where
  -- hash, for a table of `n` buckets
  unfoldable pub hash : ℕ → BlobId → ℕ
  hash n id = bit_and (sum id) (n - 1)

  -- The loop of grow: `n` entries from position `i` on are put in front of their new chains.
  pub rehash :
      ℕ
      → ℕ
      → List ℕ
      → HashedArrayTree IndexEntry
      → Result Panic (List ℕ × HashedArrayTree IndexEntry)
  rehash zero i buckets bl = ok (buckets, bl)
  rehash (suc n) i buckets bl = do
    e ← resolve bl i
    let h = hash (length buckets) e.id
    next ← bucket buckets h
    rehash n (i + 1) (set buckets h i) (put bl i (record e { next = next }))

unfoldable pub grow : IndexMap → Result Panic IndexMap
unfolding rehash
grow m = do
  (buckets, bl) ←
      rehash m.mh (m.block_list.size - 1) 1 (replicate (2 * length m.buckets) 0) m.block_list
  ok (record m { buckets = buckets; block_list = bl })

-- The switch of add.
pub prepare : IndexMap → Result Panic IndexMap
prepare m =
    if m.numentries == 0
    then ok (init m)
    else if leb (4 * length m.buckets) m.numentries
    then grow m
    else ok m

-- What add does after the switch.
pub insert : IndexMap → BlobId → ℕ → ℕ → ℕ → ℕ → Result Panic IndexMap
insert m id pack_idx offset len uncompressed = do
  let h = hash m.mh (length m.buckets) id
  let (bl, idx) = alloc zero_entry m.block_list
  next ← bucket m.buckets h
  ok (record m {
    buckets = set m.buckets h idx;
    numentries = m.numentries + 1;
    block_list = put bl idx (record {
      id = id;
      next = next;
      pack_index = pack_idx;
      offset = offset;
      len = len;
      uncompressed = uncompressed;
    });
  })

unfoldable pub add : IndexMap → BlobId → ℕ → ℕ → ℕ → ℕ → Result Panic IndexMap
unfolding prepare insert
add m id pack_idx offset len uncompressed = do
  m' ← prepare m
  insert m' id pack_idx offset len uncompressed

-- foreachWithID: the entries that fn is called with. A chain is shorter than the table.
unfoldable pub foreach_with_id : IndexMap → BlobId → Result Panic (List IndexEntry)
unfolding walk
foreach_with_id m id = if length m.buckets == 0 then ok [] else (do
  ei ← bucket m.buckets (hash m.mh (length m.buckets) id)
  walk m.block_list.size m.block_list id ei)

unfoldable pub get : IndexMap → BlobId → Result Panic (Option IndexEntry)
unfolding find
get m id = if length m.buckets == 0 then ok none else (do
  ei ← bucket m.buckets (hash m.mh (length m.buckets) id)
  find m.block_list.size m.block_list id ei)

unfoldable pub first_index : IndexMap → BlobId → Result Panic (Option ℕ)
unfolding find_first earlier
first_index m id = if length m.buckets == 0 then ok none else (do
  ei ← bucket m.buckets (hash m.mh (length m.buckets) id)
  find_first m.block_list.size m.block_list id ei none)
