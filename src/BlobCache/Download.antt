-- ===== src/BlobCache/Download.antt =====
-- GetOrCompute: several goroutines share the cache and the channels that say when a download ends.
-- Each step under the mutex is one step here; between two of them other goroutines do what they
-- like, which `Others` has for each gap and for each round of waiting. A channel is a number,
-- and closing it puts it among those that are closed.
use restic.Prelude.{
  ℕ, zero, suc, ◌==◌, ◌||◌, Bool, false, Option, none, some, List, [], ◌∷◌, if◌then◌else◌, Result,
  ok, err,
}
use restic.Prelude.Maps.{lookup, delete, put, bytes_key}
use restic.Blob.{BlobId}
use restic.BlobCache.{Buffer, Lru, Cache, add, get}

unfoldable pub is_closed : ℕ → List ℕ → Bool
is_closed ch [] = false
is_closed ch (x ∷ xs) = x == ch || is_closed ch xs

module _ (lru : Lru) where
  -- What the goroutines share.
  pub record Shared : Type 0 where
    pub cache : Cache lru
    pub closed : List ℕ

  -- The other goroutines: before the look at inProgress, in each round of waiting, before the
  -- second Get, during the download, and before the deferred function.
  pub record Others : Type 0 where
    pub before_check : Shared → Shared
    pub turn : ℕ → Shared → Shared
    pub before_retry : Shared → Shared
    pub before_add : Shared → Shared
    pub before_cleanup : Shared → Shared

  -- `<-waitForResult`, from round `n` on; none where the channel is still open after the fuel.
  unfoldable pub wait : Others → ℕ → ℕ → ℕ → Shared → Option Shared
  wait others ch zero n s = if is_closed ch s.closed then some s else none
  wait others ch (suc fuel) n s =
      let later = wait others ch fuel (suc n) (others.turn n s) in
      if is_closed ch s.closed then some s else later

  -- The entry of the own channel in inProgress.
  unfoldable pub register : ℕ → BlobId → Shared → Shared
  register finish id s = record s {
    cache = record s.cache { in_progress = put id finish s.cache.in_progress };
  }

  -- The look at inProgress and what follows up to the second Get: the wait for another download, or
  -- the own channel, which is returned too.
  unfoldable pub await : Others → ℕ → ℕ → BlobId → Shared → Option ℕ → Option (Shared × Option ℕ)
  unfolding register wait
  await others fuel finish id s none = some (register finish id s, some finish)
  await others fuel finish id s (some ch) = elim (wait others ch fuel 0 s) [
    | none ↦ none
    | some s' ↦ some (s', none)
  ]

  unfoldable pub enter : Others → ℕ → ℕ → BlobId → Shared → Option (Shared × Option ℕ)
  unfolding await
  enter others fuel finish id s = await others fuel finish id s (lookup id s.cache.in_progress)

  -- The deferred function, of the goroutine that has put its channel into inProgress. The deletion
  -- and the closing are one step.
  unfoldable pub cleanup : Others → BlobId → Option ℕ → Shared → Shared
  cleanup others id none s = s
  cleanup others id (some finish) s =
      let s' = others.before_cleanup s in
      record {
        cache = record s'.cache { in_progress = delete id s'.cache.in_progress };
        closed = finish ∷ s'.closed;
      }

  module _ {E : Type 0} where
    -- c.Add of a downloaded blob, and the return.
    unfoldable pub store :
        Others → BlobId → Option ℕ → Shared → Result E Buffer → Option (Shared × Result E Buffer)
    unfolding cleanup
    store others id mine s (err e) = some (cleanup others id mine s, err e)
    store others id mine s (ok blob) = elim (add lru s.cache id blob) [
      | none ↦ none
      | some (c, old) ↦ some (cleanup others id mine (record s { cache = c }), ok blob)
    ]

    -- What follows the second Get.
    unfoldable pub compute_missing :
        Others
        → BlobId
        → Option ℕ
        → Result E Buffer
        → Shared
        → Option Buffer
        → Option (Shared × Result E Buffer)
    unfolding store cleanup
    compute_missing others id mine compute s (some blob) = some (cleanup others id mine s, ok blob)
    compute_missing others id mine compute s none =
        store others id mine (others.before_add s) compute

    unfoldable pub retry :
        Others
        → BlobId
        → Result E Buffer
        → Option (Shared × Option ℕ)
        → Option (Shared × Result E Buffer)
    unfolding compute_missing
    retry others id compute none = none
    retry others id compute (some (s, mine)) =
        let s' = others.before_retry s in
        let (c, found) = get lru s'.cache id in
        compute_missing others id mine compute (record s' { cache = c }) found

    -- What follows the first Get.
    unfoldable pub download :
        Others
        → ℕ
        → ℕ
        → BlobId
        → Result E Buffer
        → Shared
        → Option Buffer
        → Option (Shared × Result E Buffer)
    unfolding retry
    download others fuel finish id compute s (some blob) = some (s, ok blob)
    download others fuel finish id compute s none =
        retry others id compute (enter others fuel finish id (others.before_check s))

    -- GetOrCompute, where `finish` is the channel that it makes and `compute` what the download
    -- returns; none where it still waits after `fuel` rounds.
    unfoldable pub get_or_compute :
        Others → ℕ → ℕ → Shared → BlobId → Result E Buffer → Option (Shared × Result E Buffer)
    unfolding download
    get_or_compute others fuel finish s id compute =
        let (c, found) = get lru s.cache id in
        download others fuel finish id compute (record s { cache = c }) found
