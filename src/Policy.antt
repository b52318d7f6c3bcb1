-- ===== src/Policy.antt =====
-- internal/restic/snapshot_policy.go: which snapshots `forget` keeps.
-- An instant is a number of nanoseconds. The calendar of package time is a parameter, and so is
-- `threshold`, what latest.AddDate(...).Add(...) computes for a Duration.
pub mod Sorted
pub mod Kept
use restic.Prelude.{
  ℕ, zero, suc, ◌+◌, ◌-◌, ◌*◌, Bool, true, false, not, ◌&&◌, ◌||◌, Option, none, some, List, [],
  ◌∷◌, ◌++◌, ◌==◌, ltb, if◌then◌else◌, length, bytes_eq,
}
use restic.Blob.{BlobId, Bytes}

-- A count; -1 is `unlimited`, and what is below counts as 0.
pub data Count : Type 0 where
  unlimited : Count
  limited : ℕ → Count

-- The fields are not negative.
pub record Duration : Type 0 where
  pub hours : ℕ
  pub days : ℕ
  pub months : ℕ
  pub years : ℕ

unfoldable pub is_zero : Duration → Bool
is_zero d = d.hours == 0 && d.days == 0 && d.months == 0 && d.years == 0

-- The fields that the policy reads.
pub record Snapshot : Type 0 where
  pub id : BlobId
  pub time : ℕ
  pub tags : List Bytes

pub record ExpirePolicy : Type 0 where
  pub last : Count
  pub hourly : Count
  pub daily : Count
  pub weekly : Count
  pub monthly : Count
  pub yearly : Count
  pub within : Duration
  pub within_hourly : Duration
  pub within_daily : Duration
  pub within_weekly : Duration
  pub within_monthly : Duration
  pub within_yearly : Duration
  pub tag_lists : List (List Bytes)

-- What package time says of an instant.
pub record Calendar : Type 0 where
  pub year : ℕ → ℕ
  pub month : ℕ → ℕ
  pub day : ℕ → ℕ
  pub hour : ℕ → ℕ
  pub iso_year : ℕ → ℕ
  pub iso_week : ℕ → ℕ

has_tag : Bytes → List Bytes → Bool
has_tag tag [] = false
has_tag tag (t ∷ ts) = bytes_eq t tag || has_tag tag ts

-- HasTags
unfoldable pub has_tags : Snapshot → List Bytes → Bool
unfolding has_tag
has_tags sn [] = true
has_tags sn (tag ∷ tags) =
    let rest = has_tags sn tags in
    if length tag == 0 && length sn.tags == 0
    then true
    else if not (has_tag tag sn.tags)
    then false
    else rest

-- sort.Stable with Snapshots.Less: the newest first, equal times in their order.
unfoldable pub insert_sorted : Snapshot → List Snapshot → List Snapshot
insert_sorted sn [] = sn ∷ []
insert_sorted sn (x ∷ xs) = if ltb sn.time x.time then x ∷ insert_sorted sn xs else sn ∷ x ∷ xs

unfoldable pub sort_stable : List Snapshot → List Snapshot
sort_stable [] = []
sort_stable (sn ∷ sns) = insert_sorted sn (sort_stable sns)

-- The loop of findLatestTimestamp, from the zero time.
unfoldable pub latest_from : ℕ → List Snapshot → ℕ → ℕ
latest_from now [] latest = latest
latest_from now (sn ∷ sns) latest =
    latest_from now sns (if ltb latest sn.time && ltb sn.time now then sn.time else latest)

-- What a snapshot is kept for.
pub data Reason : Type 0 where
  has_tags_of : List Bytes → Reason
  within_of : Duration → Reason
  last_snapshot hourly_snapshot daily_snapshot weekly_snapshot monthly_snapshot yearly_snapshot :
      Reason
  hourly_within daily_within weekly_within monthly_within yearly_within : Duration → Reason

-- A bucket of ApplyPolicy; `last` is nothing for -1.
pub record Bucket : Type 0 where
  pub count : Count
  pub bucker : ℕ → ℕ → ℕ
  pub last : Option ℕ
  pub reason : Reason

pub record BucketWithin : Type 0 where
  pub within : Duration
  pub bucker : ℕ → ℕ → ℕ
  pub last : Option ℕ
  pub reason : Reason

pub record KeepReason : Type 0 where
  pub snapshot : Snapshot
  pub matches : List Reason
  pub counters : List Count

pub record Verdict : Type 0 where
  pub keep : List Snapshot
  pub remove : List Snapshot
  pub reasons : List KeepReason

unfoldable pub differs : ℕ → Option ℕ → Bool
differs val none = true
differs val (some l) = not (val == l)

unfoldable pub has_counts : Count → Bool
has_counts unlimited = true
has_counts (limited n) = ltb 0 n

unfoldable pub count_down : Count → Count
count_down unlimited = unlimited
count_down (limited n) = limited (n - 1)

-- One bucket at the snapshot `nr` made at `t`; `oldest` says that it is the last of the list.
unfoldable pub hits : ℕ → ℕ → Bool → Bucket → Bool
hits t nr oldest b = has_counts b.count && (differs (b.bucker t nr) b.last || oldest)

unfoldable pub update_bucket : ℕ → ℕ → Bool → Bucket → Bucket
update_bucket t nr oldest b =
    if hits t nr oldest b
    then record b { last = some (b.bucker t nr); count = count_down b.count }
    else b

unfoldable pub update_buckets : ℕ → ℕ → Bool → List Bucket → List Bucket
update_buckets t nr oldest [] = []
update_buckets t nr oldest (b ∷ bs) = update_bucket t nr oldest b ∷ update_buckets t nr oldest bs

unfoldable pub bucket_reasons : ℕ → ℕ → Bool → List Bucket → List Reason
bucket_reasons t nr oldest [] = []
bucket_reasons t nr oldest (b ∷ bs) =
    let rest = bucket_reasons t nr oldest bs in if hits t nr oldest b then b.reason ∷ rest else rest

unfoldable pub counts_of : List Bucket → List Count
counts_of [] = []
counts_of (b ∷ bs) = b.count ∷ counts_of bs

tag_reasons : Snapshot → List (List Bytes) → List Reason
tag_reasons cur [] = []
tag_reasons cur (l ∷ ls) =
    let rest = tag_reasons cur ls in if has_tags cur l then has_tags_of l ∷ rest else rest

is_last : List Snapshot → Bool
is_last [] = true
is_last (x ∷ xs) = false

unfoldable pub judge : Snapshot → List Reason → List Bucket → Verdict → Verdict
judge cur [] buckets v = record v { remove = cur ∷ v.remove }
judge cur (r ∷ rs) buckets v = record v {
  keep = cur ∷ v.keep;
  reasons = record { snapshot = cur; matches = r ∷ rs; counters = counts_of buckets } ∷ v.reasons;
}

module _ (calendar : Calendar) (threshold : ℕ → Duration → ℕ) where
  unfoldable pub always : ℕ → ℕ → ℕ
  always t nr = nr

  ymdh : ℕ → ℕ → ℕ
  ymdh t nr =
      calendar.year t * 1000000 + calendar.month t * 10000 + calendar.day t * 100 + calendar.hour t

  ymd : ℕ → ℕ → ℕ
  ymd t nr = calendar.year t * 10000 + calendar.month t * 100 + calendar.day t

  yw : ℕ → ℕ → ℕ
  yw t nr = calendar.iso_year t * 100 + calendar.iso_week t

  ym : ℕ → ℕ → ℕ
  ym t nr = calendar.year t * 100 + calendar.month t

  y : ℕ → ℕ → ℕ
  y t nr = calendar.year t

  unfoldable pub buckets_of : ExpirePolicy → List Bucket
  unfolding always ymdh ymd yw ym y
  buckets_of p =
      record { count = p.last; bucker = always; last = none; reason = last_snapshot }
      ∷ record { count = p.hourly; bucker = ymdh; last = none; reason = hourly_snapshot }
      ∷ record { count = p.daily; bucker = ymd; last = none; reason = daily_snapshot }
      ∷ record { count = p.weekly; bucker = yw; last = none; reason = weekly_snapshot }
      ∷ record { count = p.monthly; bucker = ym; last = none; reason = monthly_snapshot }
      ∷ record { count = p.yearly; bucker = y; last = none; reason = yearly_snapshot }
      ∷ []

  unfoldable pub buckets_within_of : ExpirePolicy → List BucketWithin
  unfolding ymdh ymd yw ym y
  buckets_within_of p =
      record {
        within = p.within_hourly;
        bucker = ymdh;
        last = none;
        reason = hourly_within p.within_hourly;
      }
      ∷ record {
        within = p.within_daily;
        bucker = ymd;
        last = none;
        reason = daily_within p.within_daily;
      }
      ∷ record {
        within = p.within_weekly;
        bucker = yw;
        last = none;
        reason = weekly_within p.within_weekly;
      }
      ∷ record {
        within = p.within_monthly;
        bucker = ym;
        last = none;
        reason = monthly_within p.within_monthly;
      }
      ∷ record {
        within = p.within_yearly;
        bucker = y;
        last = none;
        reason = yearly_within p.within_yearly;
      }
      ∷ []

  unfoldable pub within_hits : ℕ → ℕ → ℕ → Bool → BucketWithin → Bool
  within_hits latest t nr oldest b =
      not (is_zero b.within)
      && ltb (threshold latest b.within) t
      && (differs (b.bucker t nr) b.last || oldest)

  unfoldable pub update_within : ℕ → ℕ → ℕ → Bool → List BucketWithin → List BucketWithin
  update_within latest t nr oldest [] = []
  update_within latest t nr oldest (b ∷ bs) =
      let rest = update_within latest t nr oldest bs in
      (if within_hits latest t nr oldest b then record b { last = some (b.bucker t nr) } else b)
      ∷ rest

  unfoldable pub within_reasons : ℕ → ℕ → ℕ → Bool → List BucketWithin → List Reason
  within_reasons latest t nr oldest [] = []
  within_reasons latest t nr oldest (b ∷ bs) =
      let rest = within_reasons latest t nr oldest bs in
      if within_hits latest t nr oldest b then b.reason ∷ rest else rest

  within_reason : ℕ → Snapshot → Duration → List Reason
  within_reason latest cur d =
      if not (is_zero d) && ltb (threshold latest d) cur.time then within_of d ∷ [] else []

  -- keepSnapReasons of a snapshot.
  unfoldable pub reasons_for :
      ExpirePolicy → ℕ → ℕ → Bool → Snapshot → List Bucket → List BucketWithin → List Reason
  unfolding tag_reasons within_reason
  reasons_for p latest nr oldest cur buckets within =
      tag_reasons cur p.tag_lists
      ++ (within_reason latest cur p.within
          ++ (bucket_reasons cur.time nr oldest buckets
              ++ within_reasons latest cur.time nr oldest within))

  -- The loop over the sorted list, from number `nr` on.
  unfoldable pub judge_all :
      ExpirePolicy → ℕ → ℕ → List Snapshot → List Bucket → List BucketWithin → Verdict
  unfolding is_last
  judge_all p latest nr [] buckets within = record { keep = []; remove = []; reasons = [] }
  judge_all p latest nr (cur ∷ sns) buckets within =
      let oldest = is_last sns in
      let buckets' = update_buckets cur.time nr oldest buckets in
      let within' = update_within latest cur.time nr oldest within in
      judge cur (reasons_for p latest nr oldest cur buckets within) buckets'
        (judge_all p latest (nr + 1) sns buckets' within')

  -- ApplyPolicy at the time `now`.
  unfoldable pub apply_policy : ℕ → List Snapshot → ExpirePolicy → Verdict
  apply_policy now list p =
      let sorted = sort_stable list in
      judge_all p (latest_from now sorted 0) 0 sorted (buckets_of p) (buckets_within_of p)
