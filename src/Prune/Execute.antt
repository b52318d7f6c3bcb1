-- ===== src/Prune/Execute.antt =====
-- PrunePlan.Execute and deleteFiles: which calls the repository gets, and in which order.
-- A trace lists the calls made so far, the latest one first. A World answers each call as it
-- likes, by the trace that ends with it. The removals of ParallelRemove are made by one worker, in
-- the order of the set. Execute also empties the plan, so that it runs once; that is left out.
pub mod Ordered
pub mod Safe
pub mod Complete
use restic.Prelude.{
  ℕ, Bool, true, false, ◌&&◌, not, Option, none, some, List, [], ◌∷◌, ◌==◌, if◌then◌else◌, length,
  Result, ok, err,
}
use restic.Prelude.Maps.{bytes_key}
use restic.Blob.{Bytes, BlobId}
use restic.Sets.{merge}
use restic.Prune.{PruneOptions, Counts}
use restic.Prune.Plan.{PrunePlan}

-- The file types that Execute removes.
pub data FileType : Type 0 where
  pack_file index_file : FileType

-- RemoveUnpacked, Repack with the blobs to keep, Rewrite with the packs to ignore, SaveFallback,
-- and clearIndex.
pub data Call : Type 0 where
  remove_unpacked : FileType → BlobId → Call
  repack : List BlobId → Option Counts → Call
  rewrite : List BlobId → Call
  save_fallback : List BlobId → Call
  clear_index : Call

abbrev pub Trace : Type 0
Trace = List Call

pub record World : Type 0 where
  -- ctx.Err, and its text
  pub cancelled : Trace → Bool
  pub cancel_text : Bytes
  pub index_ids : List BlobId
  pub remove_error : Trace → Option Bytes
  -- the keepBlobs that Repack leaves
  pub repack_result : Trace → Result Bytes Counts
  pub rewrite_error : Trace → Option Bytes
  pub fallback_error : Trace → Option Bytes

pub data ExecuteError : Type 0 where
  context_error : ExecuteError
  fatal : Bytes → ExecuteError
  not_repacked : ExecuteError

-- The report of deleteFiles: whether the error of a removal is returned, which ends the loop.
unfoldable pub stops : Bool → Option Bytes → Bool
stops ignore_error none = false
stops ignore_error (some e) = not ignore_error

unfoldable pub delete_files : World → Bool → FileType → List BlobId → Trace → Trace × Option Bytes
delete_files w ignore_error type [] t = (t, none)
delete_files w ignore_error type (id ∷ ids) t =
    let removed : Trace = remove_unpacked type id ∷ t in
    let rest = delete_files w ignore_error type ids removed in
    if w.cancelled t
    then (t, some w.cancel_text)
    else if stops ignore_error (w.remove_error removed)
    then (removed, w.remove_error removed)
    else rest

-- Removal of a set of packs, whose errors Execute drops.
unfoldable pub delete_packs : World → List BlobId → Trace → Trace
delete_packs w ids t = if length ids == 0 then t else (delete_files w true pack_file ids t).0

-- What follows Repack: the packs to remove then.
unfoldable pub after_repack : PrunePlan → Result Bytes Counts → Result ExecuteError (List BlobId)
after_repack plan (err e) = err (fatal e)
after_repack plan (ok left) =
    if length left == 0
    then ok (merge plan.actions.remove_packs plan.actions.repack_packs)
    else err not_repacked

unfoldable pub repack_packs : World → PrunePlan → Trace → Trace × Result ExecuteError (List BlobId)
repack_packs w plan t =
    let repacked : Trace = repack plan.actions.repack_packs plan.keep_blobs ∷ t in
    if length plan.actions.repack_packs == 0
    then (t, ok plan.actions.remove_packs)
    else (repacked, after_repack plan (w.repack_result repacked))

unfoldable pub ignored : PrunePlan → List BlobId → List BlobId
ignored plan remove =
    if length plan.actions.ignore_packs == 0 then remove else merge plan.actions.ignore_packs remove

unfoldable pub update_index : World → PruneOptions → List BlobId → Trace → Trace × Option Bytes
update_index w opts ignore t =
    let rewritten : Trace = rewrite ignore ∷ t in
    if opts.unsafe_recovery
    then delete_files w false index_file w.index_ids t
    else if length ignore == 0
    then (t, none)
    else (rewritten, w.rewrite_error rewritten)

unfoldable pub saved : Trace → Option Bytes → Trace × Option ExecuteError
saved t none = (clear_index ∷ t, none)
saved t (some e) = (t, some (fatal e))

-- The end of Execute, once the old packs are removed.
unfoldable pub finish_execute :
    World → PruneOptions → List BlobId → Trace → Trace × Option ExecuteError
finish_execute w opts ignore t =
    let fallback : Trace = save_fallback ignore ∷ t in
    if w.cancelled t
    then (t, some context_error)
    else if opts.unsafe_recovery
    then saved fallback (w.fallback_error fallback)
    else saved t none

unfoldable pub after_index :
    World
    → PruneOptions
    → List BlobId
    → List BlobId
    → Trace × Option Bytes
    → Trace × Option ExecuteError
after_index w opts remove ignore (t, some e) = (t, some (fatal e))
after_index w opts remove ignore (t, none) = finish_execute w opts ignore (delete_packs w remove t)

unfoldable pub remove_old :
    World → PrunePlan → Trace × Result ExecuteError (List BlobId) → Trace × Option ExecuteError
remove_old w plan (t, err e) = (t, some e)
remove_old w plan (t, ok remove) =
    after_index w plan.opts remove (ignored plan remove)
      (update_index w plan.opts (ignored plan remove) t)

-- The calls that Execute makes, and the error it returns.
unfoldable pub execute : World → PrunePlan → Trace × Option ExecuteError
execute w plan =
    let first : Trace = delete_packs w plan.actions.remove_packs_first [] in
    if plan.opts.dry_run
    then ([], none)
    else if w.cancelled first
    then (first, some context_error)
    else remove_old w plan (repack_packs w plan first)
