-- ===== src/BlobCache/Room.antt =====
-- The bytes that the cache counts, and the loop of Add that makes room.
use restic.Prelude.{
  ℕ, zero, suc, ◌+◌, ◌/◌, ◌≤◌, ◌<◌, ◌≡◌, ◌∙◌, refl, subst, inl, inr, true, false, Option, none,
  some, [], ◌∷◌, arith, ltb, length, take, drop, Bool-cases,
}
use restic.Prelude.Maps.{lookup, bytes_key}
use restic.Blob.{BlobId}
use restic.BlobCache.{Buffer, Entries, Lru, overhead, Cache, evict, larger, make_room}

-- The bytes that the entries take.
abbrev pub used : Entries → ℕ
used [] = 0
used ((id, b) ∷ es) = b.capacity + overhead + used es

abbrev pub IsDistinct : Entries → Type 0
IsDistinct [] = Unit
IsDistinct ((id, b) ∷ es) = (lookup id es ≡ none) × IsDistinct es

module _ (lru : Lru) where
  -- What is free and what the entries take is the size, the LRU's own limit is what New gave it,
  -- and no ID has two entries.
  pub record IsCache (cache : Cache lru) : Type 0 where
    pub accounted : cache.free + used (lru.entries cache.c) ≡ cache.size
    pub limited : lru.max_entries cache.c ≡ cache.size / overhead
    pub distinct : IsDistinct (lru.entries cache.c)

  -- The loop has ended with room for `size` bytes, and it has removed the oldest entries, and no
  -- more of them than was necessary.
  pub record HasRoom (size : ℕ) (cache : Cache lru) (result : Option (Cache lru × Option Buffer))
      : Type 0 where
    pub after : Cache lru
    pub old : Option Buffer
    pub removed : ℕ
    pub ended : result ≡ some (after, old)
    pub roomy : size ≤ after.free
    pub kept : lru.entries after.c ≡ drop removed (lru.entries cache.c)
    pub accounted : after.free + used (lru.entries after.c) ≡ cache.size
    pub same_size : after.size ≡ cache.size
    pub same_limit : lru.max_entries after.c ≡ lru.max_entries cache.c
    pub same_progress : after.in_progress ≡ cache.in_progress
    pub needed : (k : ℕ) → k < removed → cache.free + used (take k (lru.entries cache.c)) < size

  make_room_stop :
      (fuel size : ℕ) (cache : Cache lru) (old : Option Buffer)
      → size ≤ cache.free
      → make_room lru (suc fuel) size cache old ≡ some (cache, old)
  unfolding make_room
  make_room_stop fuel size cache old h =
      let e : ltb cache.free size ≡ false = ground arith in rw (e, make_room) refl

  next : Cache lru → Cache lru
  next cache =
      evict lru (record cache { c = (lru.remove_oldest cache.c).0 }) (lru.remove_oldest cache.c).1

  make_room_next :
      (fuel size : ℕ) (cache : Cache lru) (old : Option Buffer)
      → cache.free < size
      → make_room lru (suc fuel) size cache old
        ≡ make_room lru fuel size (next cache) (larger lru old (lru.remove_oldest cache.c).1)
  unfolding make_room next
  make_room_next fuel size cache old h =
      let e : ltb cache.free size ≡ true = ground arith in rw (e, make_room) refl

  next_lem :
      (cache : Cache lru) (id : BlobId) (b : Buffer) (es : Entries)
      → lru.entries cache.c ≡ (id, b) ∷ es
      → (lru.entries (next cache).c ≡ es)
        × ((next cache).free ≡ cache.free + (b.capacity + overhead))
        × ((next cache).size ≡ cache.size)
        × (lru.max_entries (next cache).c ≡ lru.max_entries cache.c)
        × ((next cache).in_progress ≡ cache.in_progress)
  unfolding next evict
  next_lem cache id b es h =
      let (removed, left, limit) = lru.remove_lem cache.c (id, b) es h in
      rw removed (left, refl, refl, limit, refl)

  roomy_at_once :
      (fuel size : ℕ) (cache : Cache lru) (old : Option Buffer)
      → cache.free + used (lru.entries cache.c) ≡ cache.size
      → size ≤ cache.free
      → HasRoom size cache (make_room lru (suc fuel) size cache old)
  roomy_at_once fuel size cache old total room = record {
    after = cache;
    old = old;
    removed = 0;
    ended = make_room_stop fuel size cache old room;
    roomy = room;
    kept = refl;
    accounted = total;
    same_size = refl;
    same_limit = refl;
    same_progress = refl;
    needed = λ k h. absurd (omega arith);
  }

  needed_next :
      (size free free' : ℕ) (id : BlobId) (b : Buffer) (es es' : Entries) (removed : ℕ)
      → es' ≡ es
      → free < size
      → free' ≡ free + (b.capacity + overhead)
      → ((k : ℕ) → k < removed → free' + used (take k es') < size)
      → (k : ℕ) → k < suc removed
      → free + used (take k ((id, b) ∷ es)) < size
  needed_next size free free' id b es es' removed same small more n zero lt = omega arith
  needed_next size free free' id b es es' removed same small more n (suc k) lt =
      let h : free' + used (take k es) < size =
        subst (λ xs. free' + used (take k xs) < size) same (n k (omega arith)) in
      omega arith

  pub make_room-HasRoom :
      (fuel size : ℕ) (cache : Cache lru) (old : Option Buffer) (es : Entries)
      → lru.entries cache.c ≡ es
      → cache.free + used es ≡ cache.size
      → size ≤ cache.size
      → length es < fuel
      → HasRoom size cache (make_room lru fuel size cache old)
  make_room-HasRoom zero size cache old es listed total fits enough = absurd (omega arith)
  make_room-HasRoom (suc fuel) size cache old [] listed total fits enough =
      roomy_at_once fuel size cache old (rw listed total) (omega arith)
  make_room-HasRoom (suc fuel) size cache old ((id, b) ∷ es) listed total fits enough =
      elim (Bool-cases (ltb cache.free size)) [
        | inr e ↦ roomy_at_once fuel size cache old (rw listed total) (ground arith)
        | inl e ↦
            let (listed', freed, size', limit', progress') = next_lem cache id b es listed in
            let more =
              make_room-HasRoom fuel size (next cache)
                (larger lru old (lru.remove_oldest cache.c).1) es listed' (omega arith)
                (omega arith) (omega arith) in
            record {
              after = more.after;
              old = more.old;
              removed = suc more.removed;
              ended = make_room_next fuel size cache old (ground arith) ∙ more.ended;
              roomy = more.roomy;
              kept = more.kept ∙ rw (listed', listed) refl;
              accounted = more.accounted ∙ size';
              same_size = more.same_size ∙ size';
              same_limit = more.same_limit ∙ limit';
              same_progress = more.same_progress ∙ progress';
              needed = λ k lt. rw listed (
                  needed_next size cache.free (next cache).free id b es (lru.entries (next cache).c)
                    more.removed listed' (ground arith) freed more.needed k lt);
            }
      ]
