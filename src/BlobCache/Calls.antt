-- ===== src/BlobCache/Calls.antt =====
-- What Add, Get and GetOrCompute do to a cache that New has made.
use restic.Prelude.{
  ℕ, suc, ◌+◌, ◌-◌, ◌/◌, ◌≤◌, ◌<◌, ◌≡◌, ◌≢◌, ◌∙◌, refl, sym, ap, subst, inl, inr, ◌⊎◌, true, false,
  Option, none, some, [], ◌∷◌, ◌++◌, arith, ltb, length, take, drop, Bool-cases, Option-cases,
  bytes_eq_refl,
}
use restic.Prelude.Maps.{lookup, bytes_key}
use restic.Blob.{BlobId}
use restic.BlobCache.{
  Buffer, Entries, Lru, overhead, Cache, new, add, add_entry, make_room, get, is_some,
}
use restic.BlobCache.Room.{used, IsDistinct, IsCache, make_room-HasRoom}
use restic.BlobCache.Distinct.{
  length-le-used, used-snoc, lookup-snoc, lookup-drop, IsDistinct-drop, IsDistinct-snoc,
  used-used_last, IsDistinct-used_last,
}

module _ (lru : Lru) where
  -- The buffer fits into the cache, and its ID is new.
  abbrev pub IsAddable : Cache lru → BlobId → Buffer → Type 0
  IsAddable cache id b =
      (b.capacity + overhead ≤ cache.size) × (lookup id (lru.entries cache.c) ≡ none)

  -- The result of Add where the buffer is stored: the entries `removed` at the front are gone,
  -- none of them without need, and the new one is the most recent.
  pub record Stored (cache : Cache lru) (id : BlobId) (b : Buffer) : Type 0 where
    pub after : Cache lru
    pub old : Option Buffer
    pub removed : ℕ
    pub ended : add lru cache id b ≡ some (after, old)
    pub valid : IsCache lru after
    pub listed : lru.entries after.c ≡ drop removed (lru.entries cache.c) ++ (id, b) ∷ []
    pub needed :
        (k : ℕ)
        → k < removed
        → cache.free + used (take k (lru.entries cache.c)) < b.capacity + overhead
    pub same_size : after.size ≡ cache.size
    pub same_progress : after.in_progress ≡ cache.in_progress

  add_addable :
      (cache : Cache lru) (id : BlobId) (b : Buffer)
      → IsAddable cache id b
      → add lru cache id b
        ≡ add_entry lru id b
            (make_room lru (suc (lru.len cache.c)) (b.capacity + overhead) cache none)
  unfolding add is_some
  add_addable cache id b (fits, absent) =
      let e : ltb cache.size (b.capacity + overhead) ≡ false = ground arith in
      let f : lru.contains cache.c id ≡ false = lru.contains_lem cache.c id ∙ ap is_some absent in
      rw (e, f) refl

  -- Where the cache is well-formed, and the buffer fits into it and has a new ID, Add returns, and
  -- stores the buffer as the most recent entry; it removes the least recently used entries, each
  -- of them only while there is not room enough, and the cache is well-formed again.
  pub add-Stored :
      (cache : Cache lru) (id : BlobId) (b : Buffer)
      → IsCache lru cache
      → IsAddable cache id b
      → Stored cache id b
  unfolding add_entry
  add-Stored cache id b valid addable =
      let room =
        make_room-HasRoom lru (suc (lru.len cache.c)) (b.capacity + overhead) cache none
          (lru.entries cache.c) refl valid.accounted addable.0
          (omega (arith, lru.len_lem cache.c)) in
      let absent : lookup id (lru.entries room.after.c) ≡ none =
        ap (lookup id) room.kept ∙ lookup-drop id room.removed (lru.entries cache.c) addable.1 in
      let limit : lru.max_entries room.after.c ≡ cache.size / overhead =
        room.same_limit ∙ valid.limited in
      let few : length (lru.entries room.after.c) < lru.max_entries room.after.c =
        omega
          (arith, limit, room.roomy, room.accounted, length-le-used (lru.entries room.after.c)) in
      let (unevicted, listed, limit') = lru.add_lem room.after.c id b absent few in
      let after : Cache lru = record room.after {
        c = (lru.add room.after.c id b).0;
        free = room.after.free - (b.capacity + overhead);
      } in
      let total : used (lru.entries after.c)
          ≡ used (lru.entries room.after.c) + (b.capacity + overhead) =
        ap used listed ∙ used-snoc (lru.entries room.after.c) id b in
      let distinct : IsDistinct (lru.entries room.after.c) =
        subst IsDistinct (sym room.kept)
          (IsDistinct-drop room.removed (lru.entries cache.c) valid.distinct) in
      record {
        after = after;
        old = room.old;
        removed = room.removed;
        ended = add_addable cache id b addable ∙ rw (room.ended, add_entry, unevicted) refl;
        valid = record {
          accounted = omega (arith, room.roomy, room.accounted, total, room.same_size);
          limited = limit' ∙ limit ∙ ap (λ (n : ℕ). n / overhead) (sym room.same_size);
          distinct =
              subst IsDistinct (sym listed)
                (IsDistinct-snoc id b (lru.entries room.after.c) distinct absent);
        };
        listed = listed ∙ ap (λ (es : Entries). es ++ (id, b) ∷ []) room.kept;
        needed = room.needed;
        same_size = room.same_size;
        same_progress = room.same_progress;
      }

  add_unchanged :
      (cache : Cache lru) (id : BlobId) (b : Buffer)
      → (cache.size < b.capacity + overhead) ⊎ (lookup id (lru.entries cache.c) ≢ none)
      → add lru cache id b ≡ some (cache, none)
  unfolding add is_some
  add_unchanged cache id b (inl large) =
      let e : ltb cache.size (b.capacity + overhead) ≡ true = ground arith in rw e refl
  add_unchanged cache id b (inr known) = elim (Option-cases (lookup id (lru.entries cache.c))) [
    | inl absent ↦ absurd (known absent)
    | inr (c, e) ↦
        let f : lru.contains cache.c id ≡ true = lru.contains_lem cache.c id ∙ ap is_some e in
        rw f (ground arith)
  ]

  -- On a well-formed cache, Add ends, its loop included, whatever the buffer is: it returns a
  -- well-formed cache of the same size, and Get finds the new buffer in it, if the buffer fits
  -- and the ID was new, and for any other buffer the cache is unchanged.
  pub add_returns :
      (cache : Cache lru) (id : BlobId) (b : Buffer)
      → IsCache lru cache
      → (after : Cache lru) × (old : Option Buffer) × (add lru cache id b ≡ some (after, old))
        × IsCache lru after
        × (after.size ≡ cache.size)
        × ((IsAddable cache id b × ((get lru after id).1 ≡ some b)) ⊎ (after ≡ cache))
  unfolding get
  add_returns cache id b valid = elim (Option-cases (lookup id (lru.entries cache.c))) [
    | inr (c, e) ↦ (
      cache,
      none,
      add_unchanged cache id b (inr (λ absent. cc (e, absent))),
      valid,
      refl,
      inr refl,
    )
    | inl absent ↦ elim (Bool-cases (ltb cache.size (b.capacity + overhead))) [
      | inl large ↦
          (cache, none, add_unchanged cache id b (inl (ground arith)), valid, refl, inr refl)
      | inr fits ↦
          let s = add-Stored cache id b valid (ground arith, absent) in
          (
            s.after,
            s.old,
            s.ended,
            s.valid,
            s.same_size,
            inl (
              (ground arith, absent),
              (lru.get_lem s.after.c id).0
                  ∙ ap (lookup id) s.listed
                  ∙ lookup-snoc id id b (drop s.removed (lru.entries cache.c))
                      (lookup-drop id s.removed (lru.entries cache.c) absent)
                  ∙ rw (bytes_eq_refl id) refl,
            ),
          )
    ]
  ]

  -- For a size of at least the overhead of one entry, New does not panic, and returns a well-formed
  -- cache with no entry and all bytes free.
  pub new-IsCache :
      (size : ℕ)
      → overhead ≤ size
      → (cache : Cache lru) × (new lru size ≡ some cache)
        × IsCache lru cache
        × (lru.entries cache.c ≡ [])
        × (cache.free ≡ size)
  unfolding new
  new-IsCache size h =
      let (s, made, empty, limit) = lru.new_lem (size / overhead) (omega arith) in
      let cache : Cache lru = record { c = s; free = size; size = size; in_progress = [] } in
      (
        cache,
        rw (made, new) refl,
        record { accounted = rw empty (omega arith); limited = limit; distinct = rw empty tt },
        empty,
        refl,
      )

  -- Get of a well-formed cache returns the entry's buffer, and leaves the cache well-formed.
  pub get-IsCache :
      (cache : Cache lru) (id : BlobId)
      → IsCache lru cache
      → IsCache lru (get lru cache id).0 × ((get lru cache id).1 ≡ lookup id (lru.entries cache.c))
  unfolding get
  get-IsCache cache id valid =
      let (found, listed, limit) = lru.get_lem cache.c id in
      (
        record {
          accounted =
              ap (λ (n : ℕ). cache.free + n)
                (ap used listed ∙ used-used_last id (lru.entries cache.c) valid.distinct)
              ∙ valid.accounted;
          limited = limit ∙ valid.limited;
          distinct =
              subst IsDistinct (sym listed)
                (IsDistinct-used_last id (lru.entries cache.c) valid.distinct);
        },
        found,
      )
