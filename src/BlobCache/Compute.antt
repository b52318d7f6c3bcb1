-- ===== src/BlobCache/Compute.antt =====
-- GetOrCompute ends, whatever other goroutines do between its steps, and leaves no channel open.
use restic.Prelude.{
  ℕ, zero, suc, ◌≤◌, ◌≡◌, ◌∙◌, refl, sym, ap, inl, inr, true, Option, none, some, ==_refl, arith,
  Bool-cases, Option-cases, Result, ok, err, bytes_eq_iff,
}
use restic.Prelude.Maps.{lookup, lookup-delete, bytes_key}
use restic.Blob.{BlobId}
use restic.BlobCache.{Buffer, Lru, Cache, get}
use restic.BlobCache.Room.{IsCache}
use restic.BlobCache.Calls.{get-IsCache, add_returns}
use restic.BlobCache.Download.{
  is_closed, Shared, Others, wait, register, await, enter, cleanup, store, compute_missing, retry,
  download, get_or_compute,
}

module _ (lru : Lru) where
  -- A well-formed cache, which other goroutines keep well-formed.
  abbrev pub IsShared : Shared lru → Type 0
  IsShared s = IsCache lru s.cache

  pub record Keeps (others : Others lru) : Type 0 where
    pub check : (s : Shared lru) → IsShared s → IsShared (others.before_check s)
    pub turns : (n : ℕ) (s : Shared lru) → IsShared s → IsShared (others.turn n s)
    pub second : (s : Shared lru) → IsShared s → IsShared (others.before_retry s)
    pub adds : (s : Shared lru) → IsShared s → IsShared (others.before_add s)
    pub cleans : (s : Shared lru) → IsShared s → IsShared (others.before_cleanup s)

  -- What is shared after `k` rounds of waiting from round `n` on.
  unfoldable pub after_rounds : Others lru → ℕ → ℕ → Shared lru → Shared lru
  after_rounds others zero n s = s
  after_rounds others (suc k) n s = after_rounds others k (suc n) (others.turn n s)

  wait_returns :
      (others : Others lru) (ch k fuel n : ℕ) (s : Shared lru)
      → Keeps others
      → IsShared s
      → k ≤ fuel
      → is_closed ch (after_rounds others k n s).closed ≡ true
      → (s' : Shared lru) × (wait lru others ch fuel n s ≡ some s') × IsShared s'
  unfolding wait after_rounds
  wait_returns others ch zero zero n s keeps v le ended = (s, rw ended refl, v)
  wait_returns others ch zero (suc fuel) n s keeps v le ended = (s, rw ended refl, v)
  wait_returns others ch (suc k) zero n s keeps v le ended = absurd (omega arith)
  wait_returns others ch (suc k) (suc fuel) n s keeps v le ended =
      elim (Bool-cases (is_closed ch s.closed)) [
        | inl e ↦ (s, rw e refl, v)
        | inr e ↦
            let (s', made, v') =
              wait_returns others ch k fuel (suc n) (others.turn n s) keeps (keeps.turns n s v)
                (omega arith) ended in
            (s', rw e made, v')
      ]

  -- Whoever waits is woken: a channel that is in inProgress is closed within `fuel` rounds.
  abbrev pub Wakes : Others lru → ℕ → BlobId → Shared lru → Type 0
  Wakes others fuel id s =
      (ch : ℕ)
      → lookup id s.cache.in_progress ≡ some ch
      → (k : ℕ) × (k ≤ fuel) × (is_closed ch (after_rounds others k 0 s).closed ≡ true)

  IsShared-register :
      (finish : ℕ) (id : BlobId) (s : Shared lru) → IsShared s → IsShared (register lru finish id s)
  unfolding register
  IsShared-register finish id s v = record {
    accounted = v.accounted;
    limited = v.limited;
    distinct = v.distinct;
  }

  -- Where no download runs the goroutine has its own channel, else none.
  pub own : ℕ → Option ℕ → Option ℕ
  own finish none = some finish
  own finish (some ch) = none

  enter_returns :
      (others : Others lru) (fuel finish : ℕ) (id : BlobId) (s : Shared lru)
      → Keeps others
      → IsShared s
      → Wakes others fuel id s
      → (s' : Shared lru) × (enter lru others fuel finish id s
          ≡ some (s', own finish (lookup id s.cache.in_progress)))
        × IsShared s'
  unfolding enter await own
  enter_returns others fuel finish id s keeps v wakes =
      elim (Option-cases (lookup id s.cache.in_progress)) [
        | inl e ↦ (
          register lru finish id s,
          ap (await lru others fuel finish id s) e
              ∙ ap (λ (o : Option ℕ). some (register lru finish id s, own finish o)) (sym e),
          IsShared-register finish id s v,
        )
        | inr (ch, e) ↦
            let (k, le, ended) = wakes ch e in
            let (s', made, v') = wait_returns others ch k fuel 0 s keeps v le ended in
            (
              s',
              ap (await lru others fuel finish id s) e
                  ∙ rw (made, await) (ap (λ (o : Option ℕ). some (s', own finish o)) (sym e)),
              v',
            )
      ]

  -- The channel that the goroutine has made is closed, and its blob is not in inProgress.
  abbrev pub IsCleaned : BlobId → Option ℕ → Shared lru → Type 0
  IsCleaned id none s = Unit
  IsCleaned id (some finish) s =
      (lookup id s.cache.in_progress ≡ none) × (is_closed finish s.closed ≡ true)

  cleanup_cleans :
      (others : Others lru) (id : BlobId) (mine : Option ℕ) (s : Shared lru)
      → Keeps others
      → IsShared s
      → IsShared (cleanup lru others id mine s) × IsCleaned id mine (cleanup lru others id mine s)
  unfolding cleanup is_closed
  cleanup_cleans others id none s keeps v = (v, tt)
  cleanup_cleans others id (some finish) s keeps v =
      let w = keeps.cleans s v in
      (
        record { accounted = w.accounted; limited = w.limited; distinct = w.distinct },
        (
          ground (
            arith,
            lookup-delete id id (others.before_cleanup s).cache.in_progress,
            bytes_eq_iff id id,
          ),
          ground (arith, ==_refl finish),
        ),
      )

  -- The cache at the second Get.
  abbrev pub seen_again : Others lru → Shared lru → BlobId → Option Buffer
  seen_again others s id = lookup id (lru.entries (others.before_retry s).cache.c)

module _ (lru : Lru) {E : Type 0} where
  -- What a call ends with: a well-formed cache, no open channel of its own, and the buffer or the
  -- error.
  abbrev pub Settles :
      BlobId → Option ℕ → Option (Shared lru × Result E Buffer) → Result E Buffer → Type 0
  Settles id mine call result =
      (after : Shared lru) × (call ≡ some (after, result))
      × IsShared lru after
      × IsCleaned lru id mine after

  store-Settles :
      (others : Others lru) (id : BlobId) (mine : Option ℕ) (s : Shared lru)
      (compute : Result E Buffer)
      → Keeps lru others
      → IsShared lru s
      → Settles id mine (store lru others id mine s compute) compute
  unfolding store
  store-Settles others id mine s (err e) keeps v =
      let (w, clean) = cleanup_cleans lru others id mine s keeps v in
      (cleanup lru others id mine s, refl, w, clean)
  store-Settles others id mine s (ok b) keeps v =
      let (c, old, ended, v', sized, rest) = add_returns lru s.cache id b v in
      let s' : Shared lru = record s { cache = c } in
      let (w, clean) = cleanup_cleans lru others id mine s' keeps v' in
      (
        cleanup lru others id mine s',
        ap
            (λ (o : Option (Cache lru × Option Buffer)). elim o [
              | none ↦ none
              | some (d, other) ↦ some (cleanup lru others id mine (record s { cache = d }), ok b)
            ])
            ended,
        w,
        clean,
      )

  -- The buffer of a cache, or the result of another source.
  abbrev pub cached_or : Option Buffer → Result E Buffer → Result E Buffer
  cached_or none other = other
  cached_or (some b) other = ok b

  compute_missing-Settles :
      (others : Others lru) (id : BlobId) (mine : Option ℕ) (compute : Result E Buffer)
      (s : Shared lru) (found : Option Buffer)
      → Keeps lru others
      → IsShared lru s
      → Settles id mine
          (compute_missing lru others id mine compute s found)
          (cached_or found compute)
  unfolding compute_missing
  compute_missing-Settles others id mine compute s (some b) keeps v =
      let (w, clean) = cleanup_cleans lru others id mine s keeps v in
      (cleanup lru others id mine s, refl, w, clean)
  compute_missing-Settles others id mine compute s none keeps v =
      store-Settles others id mine (others.before_add s) compute keeps (keeps.adds s v)

  retry-Settles :
      (others : Others lru) (id : BlobId) (compute : Result E Buffer) (s : Shared lru)
      (mine : Option ℕ)
      → Keeps lru others
      → IsShared lru s
      → Settles id mine
          (retry lru others id compute (some (s, mine)))
          (cached_or (seen_again lru others s id) compute)
  unfolding retry
  retry-Settles others id compute s mine keeps v =
      let s' = others.before_retry s in
      let (v', found) = get-IsCache lru s'.cache id (keeps.second s v) in
      let (after, made, w, clean) =
        compute_missing-Settles others id mine compute
          (record s' { cache = (get lru s'.cache id).0 }) (get lru s'.cache id).1 keeps v' in
      (after, made ∙ ap (λ (o : Option Buffer). some (after, cached_or o compute)) found, w, clean)

  -- On a well-formed cache that does not have the blob, GetOrCompute ends, provided that the other
  -- goroutines keep the cache well-formed and that a channel that they have for the blob is closed
  -- within the rounds of waiting that are given. It returns what the cache has at the second look,
  -- after the channel was entered or waited for, or else what the computation returns, its error
  -- included. Where no channel was there, its own is closed then and inProgress has none for the
  -- blob, so that whoever waits for it goes on.
  pub get_or_compute_returns :
      (others : Others lru) (fuel finish : ℕ) (s : Shared lru) (id : BlobId)
      (compute : Result E Buffer)
      → Keeps lru others
      → IsShared lru s
      → lookup id (lru.entries s.cache.c) ≡ none
      → Wakes lru others fuel id (others.before_check (record s { cache = (get lru s.cache id).0 }))
      → (entered : Shared lru) × (mine : Option ℕ) × (mine
          ≡ own lru finish (
              lookup id
                (others.before_check
                  (record s { cache = (get lru s.cache id).0 })).cache.in_progress))
        × (enter lru others fuel finish id
              (others.before_check (record s { cache = (get lru s.cache id).0 }))
            ≡ some (entered, mine))
        × Settles id mine
            (get_or_compute lru others fuel finish s id compute)
            (cached_or (seen_again lru others entered id) compute)
  unfolding get_or_compute download
  get_or_compute_returns others fuel finish s id compute keeps v absent wakes =
      let (v', found) = get-IsCache lru s.cache id v in
      let s1 = others.before_check (record s { cache = (get lru s.cache id).0 }) in
      let (entered, made, w) =
        enter_returns lru others fuel finish id s1 keeps
          (keeps.check (record s { cache = (get lru s.cache id).0 }) v') wakes in
      let mine = own lru finish (lookup id s1.cache.in_progress) in
      let (after, ended, w', clean) = retry-Settles others id compute entered mine keeps w in
      (
        entered,
        mine,
        refl,
        made,
        (
          after,
          ap
                (download lru others fuel finish id compute
                  (record s { cache = (get lru s.cache id).0 }))
                (found ∙ absent)
              ∙ ap (retry lru others id compute) made
              ∙ ended,
          w',
          clean,
        ),
      )
