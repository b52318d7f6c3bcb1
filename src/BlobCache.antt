-- ===== src/BlobCache.antt =====
-- internal/bloblru/cache.go: the cache of blobs, with a bound on their bytes.
-- simplelru is a parameter: its methods, and what its documentation says of the entries, which
-- are listed from the least recently used one on. A method that evicts returns the entry for
-- which it calls the callback. The mutex is not modelled: each method runs under it as a whole.
pub mod Room
mod Distinct
pub mod Calls
pub mod Download
pub mod Compute
use restic.Prelude.{
  ℕ, zero, suc, ◌+◌, ◌-◌, ◌*◌, ◌/◌, ◌<◌, ◌≡◌, Bool, true, false, Option, none, some, List, [], ◌∷◌,
  ◌++◌, arith, ltb, if◌then◌else◌, length, Result, ok, err,
}
use restic.Prelude.Maps.{lookup, delete, put, bytes_key}
use restic.Blob.{Bytes, BlobId}

-- A []byte: what it holds, and its capacity.
pub record Buffer : Type 0 where
  pub content : Bytes
  pub capacity : ℕ

abbrev pub Entries : Type 0
Entries = List (BlobId × Buffer)

pub is_some {ℓ} : {A : Type ℓ} → Option A → Bool
is_some none = false
is_some (some a) = true

-- The entries after one is used, which becomes the most recent.
unfoldable pub used_last : BlobId → Entries → Entries
used_last id es = elim (lookup id es) [ none ↦ es | some b ↦ delete id es ++ (id, b) ∷ [] ]

-- simplelru.LRU, and the documented behaviour that the cache relies on.
pub record Lru : Type 1 where
  pub State : Type 0
  pub entries : State → Entries
  pub max_entries : State → ℕ
  pub new_lru : ℕ → Option State
  pub len : State → ℕ
  pub contains : State → BlobId → Bool
  pub get : State → BlobId → State × Option Buffer
  pub add : State → BlobId → Buffer → State × Option (BlobId × Buffer)
  pub remove_oldest : State → State × Option (BlobId × Buffer)
  pub new_lem :
      (n : ℕ) → 0 < n → (s : State) × (new_lru n ≡ some s) × (entries s ≡ []) × (max_entries s ≡ n)
  pub len_lem : (s : State) → len s ≡ length (entries s)
  pub contains_lem : (s : State) (id : BlobId) → contains s id ≡ is_some (lookup id (entries s))
  pub get_lem :
      (s : State) (id : BlobId)
      → ((get s id).1 ≡ lookup id (entries s))
        × (entries (get s id).0 ≡ used_last id (entries s))
        × (max_entries (get s id).0 ≡ max_entries s)
  pub add_lem :
      (s : State) (id : BlobId) (b : Buffer)
      → lookup id (entries s) ≡ none
      → length (entries s) < max_entries s
      → ((add s id b).1 ≡ none)
        × (entries (add s id b).0 ≡ entries s ++ (id, b) ∷ [])
        × (max_entries (add s id b).0 ≡ max_entries s)
  pub remove_lem :
      (s : State) (e : BlobId × Buffer) (es : Entries)
      → entries s ≡ e ∷ es
      → ((remove_oldest s).1 ≡ some e)
        × (entries (remove_oldest s).0 ≡ es)
        × (max_entries (remove_oldest s).0 ≡ max_entries s)

-- len(restic.ID{}) + 64
abbrev pub overhead : ℕ
overhead = 32 + 64

module _ (lru : Lru) where
  open lru use {State}

  -- A channel in inProgress is a number.
  pub record Cache : Type 0 where
    pub c : State
    pub free : ℕ
    pub size : ℕ
    pub in_progress : List (BlobId × ℕ)

  -- New; none is the panic.
  unfoldable pub new : ℕ → Option Cache
  new size = elim (lru.new_lru (size / overhead)) [
    | none ↦ none
    | some s ↦ some (record { c = s; free = size; size = size; in_progress = [] })
  ]

  -- The callback, for the entry that the LRU evicts.
  unfoldable pub evict : Cache → Option (BlobId × Buffer) → Cache
  evict cache none = cache
  evict cache (some (key, blob)) = record cache { free = cache.free + (blob.capacity + overhead) }

  -- cap; a nil buffer has none.
  pub cap : Option Buffer → ℕ
  cap none = 0
  cap (some b) = b.capacity

  -- The larger of the buffer to return and the evicted one.
  pub larger : Option Buffer → Option (BlobId × Buffer) → Option Buffer
  larger old none = old
  larger old (some (key, b)) = if ltb (cap old) b.capacity then some b else old

  -- The loop `for size > c.free`; none where it has not ended within the fuel.
  unfoldable pub make_room : ℕ → ℕ → Cache → Option Buffer → Option (Cache × Option Buffer)
  unfolding evict larger cap
  make_room zero size cache old = none
  make_room (suc fuel) size cache old =
      let (s, removed) = lru.remove_oldest cache.c in
      let rest =
        make_room fuel size (evict (record cache { c = s }) removed) (larger old removed) in
      if ltb cache.free size then rest else some (cache, old)

  -- The end of Add, after the loop.
  unfoldable pub add_entry :
      BlobId → Buffer → Option (Cache × Option Buffer) → Option (Cache × Option Buffer)
  unfolding evict
  add_entry id blob none = none
  add_entry id blob (some (cache, old)) =
      let (s, removed) = lru.add cache.c id blob in
      let cache' = evict (record cache { c = s }) removed in
      some (record cache' { free = cache'.free - (blob.capacity + overhead) }, old)

  unfoldable pub add : Cache → BlobId → Buffer → Option (Cache × Option Buffer)
  add cache id blob =
      let size = blob.capacity + overhead in
      if ltb cache.size size
      then some (cache, none)
      else if lru.contains cache.c id
      then some (cache, none)
      else add_entry id blob (make_room (suc (lru.len cache.c)) size cache none)

  unfoldable pub get : Cache → BlobId → Cache × Option Buffer
  get cache id = let (s, blob) = lru.get cache.c id in (record cache { c = s }, blob)
