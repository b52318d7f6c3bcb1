-- ===== src/Policy/Kept.antt =====
-- ApplyPolicy keeps the newest snapshots that the policy asks for, and loses none.
use mathlib.Core.List.{Perm, perm_middle}
use mathlib.Core.List.Perm
use restic.Prelude.{
  ℕ, zero, suc, ◌+◌, ◌<◌, ◌≡◌, ◌∙◌, refl, ap, Bool, true, Option, none, some, List, [], ◌∷◌, ◌++◌,
  arith, map, take,
}
use restic.Policy.Sorted.{IsSorted, sort_stable-IsSorted, sort_stable-Perm}
use restic.Policy.{
  limited, Snapshot, Duration, ExpirePolicy, Calendar, Bucket, BucketWithin, Reason, Verdict,
  KeepReason, sort_stable, latest_from, differs, has_counts, count_down, hits, update_bucket,
  update_buckets, bucket_reasons, update_within, reasons_for, judge, judge_all, buckets_of, always,
  apply_policy, is_last,
}

-- The last value of a bucket lies before `nr`.
abbrev Before : ℕ → Option ℕ → Type 0
Before nr none = Unit
Before nr (some l) = l < nr

-- A bucket for the last snapshots, with `k` of them to keep.
record IsCounting (k nr : ℕ) (b : Bucket) : Type 0 where
  count : b.count ≡ limited k
  bucker : (t n : ℕ) → b.bucker t n ≡ n
  last : Before nr b.last

differs-Before : (nr : ℕ) (o : Option ℕ) → Before nr o → differs nr o ≡ true
unfolding differs
differs-Before nr none h = refl
differs-Before nr (some l) h = ground arith

hits-IsCounting :
    (k nr t : ℕ) (oldest : Bool) (b : Bucket) → IsCounting (suc k) nr b → hits t nr oldest b ≡ true
unfolding hits has_counts
hits-IsCounting k nr t oldest b c =
    rw (c.count, c.bucker t nr, differs-Before nr b.last c.last) (ground arith)

IsCounting-next :
    (k nr t : ℕ) (oldest : Bool) (b : Bucket)
    → IsCounting (suc k) nr b
    → IsCounting k (nr + 1) (update_bucket t nr oldest b)
unfolding update_bucket count_down
IsCounting-next k nr t oldest b c = rw (hits-IsCounting k nr t oldest b c) (record {
  count = rw (c.count) (ap limited (omega arith));
  bucker = c.bucker;
  last = rw (c.bucker t nr) (omega arith);
})

judge-kept :
    (cur : Snapshot) (xs ys zs : List Reason) (r : Reason) (bs : List Bucket) (v : Verdict)
    → (judge cur (xs ++ (ys ++ (r ∷ zs))) bs v).keep ≡ cur ∷ v.keep
unfolding judge
judge-kept cur [] [] zs r bs v = refl
judge-kept cur [] (y ∷ ys) zs r bs v = refl
judge-kept cur (x ∷ xs) ys zs r bs v = refl

judge-Perm :
    (cur : Snapshot) (rs : List Reason) (bs : List Bucket) (v : Verdict) (sns : List Snapshot)
    → Perm (v.keep ++ v.remove) sns
    → Perm ((judge cur rs bs v).keep ++ (judge cur rs bs v).remove) (cur ∷ sns)
unfolding judge
judge-Perm cur [] bs v sns h = Perm.trans (perm_middle v.keep v.remove) (Perm.cons cur h)
judge-Perm cur (r ∷ rs) bs v sns h = Perm.cons cur h

judge-reasons :
    (cur : Snapshot) (rs : List Reason) (bs : List Bucket) (v : Verdict)
    → map (λ (k : KeepReason). k.snapshot) v.reasons ≡ v.keep
    → map (λ (k : KeepReason). k.snapshot) (judge cur rs bs v).reasons ≡ (judge cur rs bs v).keep
unfolding judge
judge-reasons cur [] bs v h = h
judge-reasons cur (r ∷ rs) bs v h = ap (λ (xs : List Snapshot). cur ∷ xs) h

module _ (calendar : Calendar) (threshold : ℕ → Duration → ℕ) where
  bucket_reasons-hit :
      (t nr : ℕ) (oldest : Bool) (b : Bucket) (bs : List Bucket)
      → hits t nr oldest b ≡ true
      → bucket_reasons t nr oldest (b ∷ bs) ≡ b.reason ∷ bucket_reasons t nr oldest bs
  unfolding bucket_reasons
  bucket_reasons-hit t nr oldest b bs h = rw h refl

  judge_all-take :
      (p : ExpirePolicy) (latest nr k : ℕ) (sns : List Snapshot) (b : Bucket) (bs : List Bucket)
      (ws : List BucketWithin)
      → IsCounting k nr b
      → take k (judge_all calendar threshold p latest nr sns (b ∷ bs) ws).keep ≡ take k sns
  unfolding judge_all reasons_for update_buckets
  judge_all-take p latest nr zero sns b bs ws c = refl
  judge_all-take p latest nr (suc k) [] b bs ws c = refl
  judge_all-take p latest nr (suc k) (cur ∷ sns) b bs ws c =
      let oldest = is_last sns in
      let rest =
        judge_all calendar threshold p latest (nr + 1) sns
          (update_buckets cur.time nr oldest (b ∷ bs))
          (update_within calendar threshold latest cur.time nr oldest ws) in
      rw (bucket_reasons-hit cur.time nr oldest b bs (hits-IsCounting k nr cur.time oldest b c)) (
        ap (take (suc k)) (judge-kept cur _ _ _ b.reason _ rest)
        ∙ ap (λ (xs : List Snapshot). cur ∷ xs)
            (judge_all-take p latest (nr + 1) k sns (update_bucket cur.time nr oldest b)
              (update_buckets cur.time nr oldest bs) _ (IsCounting-next k nr cur.time oldest b c)))

  judge_all-Perm :
      (p : ExpirePolicy) (latest nr : ℕ) (sns : List Snapshot) (bs : List Bucket)
      (ws : List BucketWithin)
      → Perm
          ((judge_all calendar threshold p latest nr sns bs ws).keep
            ++ (judge_all calendar threshold p latest nr sns bs ws).remove)
          sns
  unfolding judge_all
  judge_all-Perm p latest nr [] bs ws = Perm.nil
  judge_all-Perm p latest nr (cur ∷ sns) bs ws =
      judge-Perm cur _ _ _ sns (judge_all-Perm p latest (nr + 1) sns _ _)

  judge_all-reasons :
      (p : ExpirePolicy) (latest nr : ℕ) (sns : List Snapshot) (bs : List Bucket)
      (ws : List BucketWithin)
      → map
          (λ (k : KeepReason). k.snapshot)
          (judge_all calendar threshold p latest nr sns bs ws).reasons
        ≡ (judge_all calendar threshold p latest nr sns bs ws).keep
  unfolding judge_all
  judge_all-reasons p latest nr [] bs ws = refl
  judge_all-reasons p latest nr (cur ∷ sns) bs ws =
      judge-reasons cur _ _ _ (judge_all-reasons p latest (nr + 1) sns _ _)

  -- With a count of `n` for the last snapshots, the first `n` snapshots that ApplyPolicy keeps
  -- are the first `n` of the list put in order, the newest first and those of the same time in
  -- their order in the list, or all of them where the list has fewer.
  pub apply_policy-last :
      (now n : ℕ) (list : List Snapshot) (p : ExpirePolicy)
      → p.last ≡ limited n
      → (sorted : List Snapshot) × IsSorted list sorted
        × (take n (apply_policy calendar threshold now list p).keep ≡ take n sorted)
  unfolding apply_policy buckets_of always
  apply_policy-last now n list p h = (
    sort_stable list,
    sort_stable-IsSorted list,
    judge_all-take p (latest_from now (sort_stable list) 0) 0 n (sort_stable list) _ _ _
        (record { count = h; bucker = λ t k. refl; last = tt }),
  )

  -- ApplyPolicy puts every snapshot of the list into one of its two results: the kept and the
  -- removed snapshots together are those of the list, in another order. The reasons name the kept
  -- snapshots, in the same order.
  pub apply_policy-partition :
      (now : ℕ) (list : List Snapshot) (p : ExpirePolicy)
      → Perm
          ((apply_policy calendar threshold now list p).keep
            ++ (apply_policy calendar threshold now list p).remove)
          list
        × (map (λ (k : KeepReason). k.snapshot) (apply_policy calendar threshold now list p).reasons
            ≡ (apply_policy calendar threshold now list p).keep)
  unfolding apply_policy
  apply_policy-partition now list p = (
    Perm.trans (judge_all-Perm p _ 0 (sort_stable list) _ _) (sort_stable-Perm list),
    judge_all-reasons p _ 0 (sort_stable list) _ _,
  )
