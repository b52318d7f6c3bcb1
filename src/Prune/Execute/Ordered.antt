-- ===== src/Prune/Execute/Ordered.antt =====
-- The order of the calls of Execute: which calls must come before the removal of a pack.
use restic.Prelude.{
  ◌≡◌, refl, Bool, true, false, ◌&&◌, ◌||◌, Option, none, some, List, [], ◌∷◌, ◌==◌, length, arith,
  Result, ok, err, Bool-cases, inl, inr, bytes_eq_iff,
}
use restic.Prelude.Maps.{bytes_key}
use restic.Blob.{Bytes, BlobId}
use restic.Sets.{has}
use restic.Sets.Algebra.{has-operations}
use restic.Prune.{PruneOptions, Counts}
use restic.Prune.Plan.{PrunePlan}
use restic.Prune.Execute.{
  pack_file, index_file, remove_unpacked, repack, rewrite, save_fallback, clear_index, Trace, World,
  ExecuteError, delete_files, delete_packs, after_repack, repack_packs, ignored, update_index,
  saved, finish_execute, after_index, remove_old, execute,
}

-- Rewrite, or Repack, did what it should to a pack: Rewrite returned without error and left the
-- pack out, Repack read it and left no blob to keep.
unfoldable pub leaves_out : BlobId → List BlobId → Option Bytes → Bool
leaves_out id packs none = has id packs
leaves_out id packs (some e) = false

unfoldable pub moves : BlobId → List BlobId → Result Bytes Counts → Bool
moves id packs (ok left) = length left == 0 && has id packs
moves id packs (err e) = false

unfoldable pub left_out : World → BlobId → Trace → Bool
left_out w id [] = false
left_out w id (rewrite packs ∷ t) =
    leaves_out id packs (w.rewrite_error (rewrite packs ∷ t)) || left_out w id t
left_out w id (remove_unpacked type x ∷ t) = left_out w id t
left_out w id (repack packs keep ∷ t) = left_out w id t
left_out w id (save_fallback packs ∷ t) = left_out w id t
left_out w id (clear_index ∷ t) = left_out w id t

unfoldable pub moved : World → BlobId → Trace → Bool
moved w id [] = false
moved w id (repack packs keep ∷ t) =
    moves id packs (w.repack_result (repack packs keep ∷ t)) || moved w id t
moved w id (rewrite packs ∷ t) = moved w id t
moved w id (remove_unpacked type x ∷ t) = moved w id t
moved w id (save_fallback packs ∷ t) = moved w id t
moved w id (clear_index ∷ t) = moved w id t

-- Whether a pack may be removed after the calls of a trace: no index lists it, or the index was
-- rewritten without it and none of its blobs is needed any more.
unfoldable pub removable : World → PrunePlan → BlobId → Trace → Bool
removable w plan id t =
    has id plan.actions.remove_packs_first
    || left_out w id t && (has id plan.actions.remove_packs || moved w id t)

unfoldable pub in_order : World → PrunePlan → Trace → Bool
in_order w plan [] = true
in_order w plan (remove_unpacked pack_file id ∷ t) = removable w plan id t && in_order w plan t
in_order w plan (remove_unpacked index_file id ∷ t) = in_order w plan t
in_order w plan (repack packs keep ∷ t) = in_order w plan t
in_order w plan (rewrite packs ∷ t) = in_order w plan t
in_order w plan (save_fallback packs ∷ t) = in_order w plan t
in_order w plan (clear_index ∷ t) = in_order w plan t

AllRemovable : World → PrunePlan → List BlobId → Trace → Type 0
AllRemovable w plan ids t = (id : BlobId) → has id ids ≡ true → removable w plan id t ≡ true

has_first : (id : BlobId) (ids : List BlobId) → has id (id ∷ ids) ≡ true
unfolding has
has_first id ids = ground (arith, bytes_eq_iff id id)

has_rest : (x id : BlobId) (ids : List BlobId) → has x ids ≡ true → has x (id ∷ ids) ≡ true
unfolding has
has_rest x id ids h = ground arith

in_order-delete_files :
    (w : World) (plan : PrunePlan) (ids : List BlobId) (t : Trace)
    → AllRemovable w plan ids t
    → in_order w plan t ≡ true
    → in_order w plan (delete_files w true pack_file ids t).0 ≡ true
unfolding delete_files in_order removable left_out moved has AllRemovable
in_order-delete_files w plan [] t all ordered = ordered
in_order-delete_files w plan (id ∷ ids) t all ordered =
    let here : in_order w plan (remove_unpacked pack_file id ∷ t) ≡ true =
      ground (arith, all id (has_first id ids), ordered) in
    let rest =
      in_order-delete_files w plan ids (remove_unpacked pack_file id ∷ t)
        (λ x h. all x (has_rest x id ids h)) here in
    ground (arith, ordered, here, rest)

in_order-delete_packs :
    (w : World) (plan : PrunePlan) (ids : List BlobId) (t : Trace)
    → AllRemovable w plan ids t
    → in_order w plan t ≡ true
    → in_order w plan (delete_packs w ids t) ≡ true
unfolding delete_packs
in_order-delete_packs w plan ids t all ordered =
    ground (arith, ordered, in_order-delete_files w plan ids t all ordered)

-- The packs to remove once Repack is done, and the packs that the index must leave out.
Planned : World → PrunePlan → List BlobId → Trace → Type 0
Planned w plan remove t =
    (id : BlobId) → has id remove ≡ true → (has id plan.actions.remove_packs || moved w id t) ≡ true

Repacked : World → PrunePlan → Trace × Result ExecuteError (List BlobId) → Type 0
Repacked w plan (t, err e) = in_order w plan t ≡ true
Repacked w plan (t, ok remove) = (in_order w plan t ≡ true) × Planned w plan remove t

after_repack-Repacked :
    (w : World) (plan : PrunePlan) (t : Trace) (r : Result Bytes Counts)
    → in_order w plan t ≡ true
    → w.repack_result (repack plan.actions.repack_packs plan.keep_blobs ∷ t) ≡ r
    → Repacked w plan (repack plan.actions.repack_packs plan.keep_blobs ∷ t, after_repack plan r)
unfolding Repacked Planned after_repack moved moves in_order
after_repack-Repacked w plan t (err e) ordered made = ordered
after_repack-Repacked w plan t (ok left) ordered made = elim (Bool-cases (length left == 0)) [
  | inl none_left ↦ rw none_left (
    ordered,
    λ id h.
        rw (made, none_left)
          (ground
            (arith, (has-operations plan.actions.remove_packs plan.actions.repack_packs id).0, h)),
  )
  | inr some_left ↦ rw some_left ordered
]

repack_packs-Repacked :
    (w : World) (plan : PrunePlan) (t : Trace)
    → in_order w plan t ≡ true
    → Repacked w plan (repack_packs w plan t)
unfolding repack_packs Repacked Planned
repack_packs-Repacked w plan t ordered = elim (Bool-cases (length plan.actions.repack_packs == 0)) [
  | inl nothing ↦ rw nothing (ordered, λ id h. ground arith)
  | inr something ↦ rw something (
      after_repack-Repacked w plan t
        (w.repack_result (repack plan.actions.repack_packs plan.keep_blobs ∷ t)) ordered refl)
]

Indexed : World → PrunePlan → List BlobId → Trace × Option Bytes → Type 0
Indexed w plan remove (t, some e) = in_order w plan t ≡ true
Indexed w plan remove (t, none) = (in_order w plan t ≡ true) × AllRemovable w plan remove t

has-ignored :
    (plan : PrunePlan) (remove : List BlobId) (id : BlobId)
    → has id remove ≡ true
    → has id (ignored plan remove) ≡ true
unfolding ignored
has-ignored plan remove id h =
    ground (arith, h, (has-operations plan.actions.ignore_packs remove id).0)

pub has-empty : (id : BlobId) (ids : List BlobId) → length ids ≡ 0 → has id ids ≡ false
unfolding has
has-empty id [] h = refl
has-empty id (x ∷ ids) h = ground arith

module _ (w : World) (plan : PrunePlan) (remove ignore : List BlobId)
    (within : (id : BlobId) → has id remove ≡ true → has id ignore ≡ true) where
  rewritten-Indexed :
      (t : Trace) (e : Option Bytes)
      → in_order w plan t ≡ true
      → Planned w plan remove t
      → w.rewrite_error (rewrite ignore ∷ t) ≡ e
      → Indexed w plan remove (rewrite ignore ∷ t, e)
  unfolding Indexed AllRemovable Planned removable left_out moved leaves_out in_order
  rewritten-Indexed t (some e) ordered planned made = ordered
  rewritten-Indexed t none ordered planned made =
      (ordered, λ id h. rw made (ground (arith, within id h, planned id h)))

  update_index-Indexed :
      (opts : PruneOptions) (t : Trace)
      → opts.unsafe_recovery ≡ false
      → in_order w plan t ≡ true
      → Planned w plan remove t
      → Indexed w plan remove (update_index w opts ignore t)
  unfolding update_index Indexed AllRemovable
  update_index-Indexed opts t safe ordered planned = elim (Bool-cases (length ignore == 0)) [
    | inl nothing ↦
        rw (safe, nothing) (ordered, λ id h. ground (arith, within id h, has-empty id ignore))
    | inr something ↦
        rw (safe, something)
          (rewritten-Indexed t (w.rewrite_error (rewrite ignore ∷ t)) ordered planned refl)
  ]

in_order-saved :
    (w : World) (plan : PrunePlan) (t : Trace) (e : Option Bytes)
    → in_order w plan t ≡ true
    → in_order w plan (saved t e).0 ≡ true
unfolding saved in_order
in_order-saved w plan t none ordered = ordered
in_order-saved w plan t (some e) ordered = ordered

in_order-finish_execute :
    (w : World) (plan : PrunePlan) (opts : PruneOptions) (ignore : List BlobId) (t : Trace)
    → in_order w plan t ≡ true
    → in_order w plan (finish_execute w opts ignore t).0 ≡ true
unfolding finish_execute in_order
in_order-finish_execute w plan opts ignore t ordered =
    let fallback : Trace = save_fallback ignore ∷ t in
    ground (
      arith,
      ordered,
      in_order-saved w plan t none ordered,
      in_order-saved w plan fallback (w.fallback_error fallback) ordered,
    )

in_order-after_index :
    (w : World) (plan : PrunePlan) (opts : PruneOptions) (remove ignore : List BlobId)
    (r : Trace × Option Bytes)
    → Indexed w plan remove r
    → in_order w plan (after_index w opts remove ignore r).0 ≡ true
unfolding after_index Indexed
in_order-after_index w plan opts remove ignore (t, some e) indexed = indexed
in_order-after_index w plan opts remove ignore (t, none) indexed =
    in_order-finish_execute w plan opts ignore (delete_packs w remove t)
      (in_order-delete_packs w plan remove t indexed.1 indexed.0)

in_order-remove_old :
    (w : World) (plan : PrunePlan) (r : Trace × Result ExecuteError (List BlobId))
    → plan.opts.unsafe_recovery ≡ false
    → Repacked w plan r
    → in_order w plan (remove_old w plan r).0 ≡ true
unfolding remove_old Repacked
in_order-remove_old w plan (t, err e) safe repacked = repacked
in_order-remove_old w plan (t, ok remove) safe repacked =
    let ignore = ignored plan remove in
    in_order-after_index w plan plan.opts remove ignore (update_index w plan.opts ignore t) (
      update_index-Indexed w plan remove ignore (has-ignored plan remove) plan.opts t safe
        repacked.0 repacked.1)

-- Without UnsafeRecovery, whatever the repository answers and whenever the context is cancelled:
-- Execute removes a pack only if no index lists it (it is one of removePacksFirst), or after the
-- index was rewritten without the pack and without error, and after Repack, when the pack is one
-- of repackPacks but not of removePacks, read it and left no blob to keep. With DryRun it calls
-- nothing and returns nil.
pub execute-in_order :
    (w : World) (plan : PrunePlan)
    → plan.opts.unsafe_recovery ≡ false
    → (in_order w plan (execute w plan).0 ≡ true)
      × (plan.opts.dry_run ≡ true → execute w plan ≡ ([], none))
unfolding execute in_order AllRemovable removable
execute-in_order w plan safe =
    let first : Trace = delete_packs w plan.actions.remove_packs_first [] in
    let ordered : in_order w plan first ≡ true =
      in_order-delete_packs w plan plan.actions.remove_packs_first [] (λ id h. ground arith) refl in
    let rest =
      in_order-remove_old w plan (repack_packs w plan first) safe
        (repack_packs-Repacked w plan first ordered) in
    (ground (arith, ordered, rest), λ dry. ground (arith, dry))
