-- ===== src/Samples/Caches.antt =====
-- An LRU list for the cache of blobs, and calls on a cache of 300 bytes.
use restic.Prelude.{
  ℕ, zero, suc, ◌<◌, ◌≡◌, refl, ◌⊎◌, Option, none, some, [], ◌∷◌, ◌++◌, arith, ltb, lt→ltb, length,
  replicate, Result, ok, if◌then◌else◌,
}
use restic.Prelude.Maps.{lookup, bytes_key}
use restic.Blob.{BlobId}
use restic.BlobCache.{Buffer, Entries, Lru, is_some, used_last, Cache, new, add, get}
use restic.BlobCache.Room.{IsCache}
use restic.BlobCache.Calls.{Stored, IsAddable, add-Stored, add_returns}
use restic.BlobCache.Download.{Shared, Others, is_closed, enter, get_or_compute}
use restic.BlobCache.Compute.{
  IsShared, Keeps, Wakes, after_rounds, own, Settles, seen_again, cached_or, get_or_compute_returns,
}
use restic.Prelude.{◌==◌, true, subst, bytes_eq}

record ListLru : Type 0 where
  items : Entries
  most : ℕ

pop : ListLru → Entries → ListLru × Option (BlobId × Buffer)
pop s [] = (s, none)
pop s (e ∷ es) = (record s { items = es }, some e)

push : ListLru → BlobId → Buffer → ListLru × Option (BlobId × Buffer)
unfolding pop
push s id b =
    if ltb (length s.items) s.most
    then (record s { items = s.items ++ (id, b) ∷ [] }, none)
    else pop s (s.items ++ (id, b) ∷ [])

make : ℕ → Option ListLru
make zero = none
make (suc n) = some (record { items = []; most = suc n })

make_lem : (n : ℕ) → 0 < n → (s : ListLru) × (make n ≡ some s) × (s.items ≡ []) × (s.most ≡ n)
unfolding make
make_lem zero h = absurd (omega arith)
make_lem (suc n) h = (record { items = []; most = suc n }, refl, refl, refl)

push_lem :
    (s : ListLru) (id : BlobId) (b : Buffer)
    → length s.items < s.most
    → push s id b ≡ (record s { items = s.items ++ (id, b) ∷ [] }, none)
unfolding push
push_lem s id b h = rw (lt→ltb (length s.items) s.most h) refl

pop_lem :
    (s : ListLru) (e : BlobId × Buffer) (es items : Entries)
    → items ≡ e ∷ es
    → pop s items ≡ (record s { items = es }, some e)
unfolding pop
pop_lem s e es items h = rw h refl

add_law :
    (s : ListLru) (id : BlobId) (b : Buffer)
    → lookup id s.items ≡ none
    → length s.items < s.most
    → ((push s id b).1 ≡ none)
      × ((push s id b).0.items ≡ s.items ++ (id, b) ∷ [])
      × ((push s id b).0.most ≡ s.most)
add_law s id b absent room = rw (push_lem s id b room) (refl, refl, refl)

remove_law :
    (s : ListLru) (e : BlobId × Buffer) (es : Entries)
    → s.items ≡ e ∷ es
    → ((pop s s.items).1 ≡ some e)
      × ((pop s s.items).0.items ≡ es)
      × ((pop s s.items).0.most ≡ s.most)
remove_law s e es h = rw (pop_lem s e es s.items h) (refl, refl, refl)

abbrev list_lru : Lru
list_lru = record {
  State = ListLru;
  entries = λ s. s.items;
  max_entries = λ s. s.most;
  new_lru = make;
  len = λ s. length s.items;
  contains = λ s id. is_some (lookup id s.items);
  get = λ s id. (record s { items = used_last id s.items }, lookup id s.items);
  add = push;
  remove_oldest = λ s. pop s s.items;
  new_lem = make_lem;
  len_lem = λ s. refl;
  contains_lem = λ s id. refl;
  get_lem = λ s id. (refl, refl, refl);
  add_lem = add_law;
  remove_lem = remove_law;
}

abbrev empty_cache : Cache list_lru
empty_cache = record {
  c = record { items = []; most = 3 };
  free = 300;
  size = 300;
  in_progress = [];
}

empty_cache_made : new list_lru 300 ≡ some empty_cache
unfolding new make
empty_cache_made = refl

empty-IsCache : IsCache list_lru empty_cache
empty-IsCache = record { accounted = refl; limited = refl; distinct = tt }

abbrev id7 : BlobId
id7 = replicate 32 7

abbrev buffer : Buffer
buffer = record { content = 1 ∷ 2 ∷ []; capacity = 100 }

buffer-IsAddable : IsAddable list_lru empty_cache id7 buffer
unfolding lookup
buffer-IsAddable = (omega arith, refl)

add-Stored_example : Stored list_lru empty_cache id7 buffer
add-Stored_example = add-Stored list_lru empty_cache id7 buffer empty-IsCache buffer-IsAddable

add_returns_example :
    (after : Cache list_lru) × (old : Option Buffer) × (add list_lru empty_cache id7 buffer
      ≡ some (after, old))
    × IsCache list_lru after
    × (after.size ≡ empty_cache.size)
    × ((IsAddable list_lru empty_cache id7 buffer × ((get list_lru after id7).1 ≡ some buffer))
        ⊎ (after ≡ empty_cache))
add_returns_example = add_returns list_lru empty_cache id7 buffer empty-IsCache

-- Another goroutine downloads the blob, and closes its channel, 3, in the second round of waiting.
abbrev others : Others list_lru
others = record {
  before_check = λ s. s;
  turn = λ n s. if n == 1 then record s { closed = 3 ∷ s.closed } else s;
  before_retry = λ s. s;
  before_add = λ s. s;
  before_cleanup = λ s. s;
}

abbrev shared : Shared list_lru
shared = record { cache = record empty_cache { in_progress = (id7, 3) ∷ [] }; closed = [] }

others-Keeps : Keeps list_lru others
others-Keeps = record {
  check = λ s v. v;
  turns = λ n s v. ground arith;
  second = λ s v. v;
  adds = λ s v. v;
  cleans = λ s v. v;
}

shared-IsShared : IsShared list_lru shared
shared-IsShared =
    let v = empty-IsCache in
    record { accounted = v.accounted; limited = v.limited; distinct = v.distinct }

abbrev looked : Shared list_lru
looked = record shared { cache = (get list_lru shared.cache id7).0 }

is_absent : lookup id7 (list_lru.entries shared.cache.c) ≡ none
unfolding lookup
is_absent = refl

woken : is_closed 3 (after_rounds list_lru others 2 0 looked).closed ≡ true
unfolding is_closed after_rounds
woken = refl

running : lookup id7 looked.cache.in_progress ≡ some 3
unfolding lookup get bytes_eq
running = refl

others-Wakes : Wakes list_lru others 5 id7 looked
others-Wakes ch e =
    let same : 3 ≡ ch = cc (running, e) in
    (
      2,
      omega arith,
      subst (λ (c : ℕ). is_closed c (after_rounds list_lru others 2 0 looked).closed ≡ true) same
          woken,
    )

abbrev fetched : Result ℕ Buffer
fetched = ok buffer

get_or_compute_returns_example :
    (entered : Shared list_lru) × (mine : Option ℕ) × (mine
      ≡ own list_lru 4 (lookup id7 looked.cache.in_progress))
    × (enter list_lru others 5 4 id7 looked ≡ some (entered, mine))
    × Settles list_lru id7 mine
        (get_or_compute list_lru others 5 4 shared id7 fetched)
        (cached_or list_lru (seen_again list_lru others entered id7) fetched)
get_or_compute_returns_example =
    get_or_compute_returns list_lru others 5 4 shared id7 fetched others-Keeps shared-IsShared
      is_absent others-Wakes
