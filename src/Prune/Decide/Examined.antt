-- ===== src/Prune/Decide/Examined.antt =====
-- What one step of the listing does to a decision, by cases.
use restic.Prelude.{
  ℕ, ◌≡◌, ◌∙◌, sym, ap, not, ◌&&◌, ◌⊎◌, Option, none, some, ◌==◌, if◌then◌else◌, arith, Result, ok,
  err, ok-injective, Option-cases, inl, inr,
}
use restic.Blob.{BlobId, insert_id}
use restic.Prune.{
  PruneError, size_not_matching, PruneOptions, PruneStats, PackInfo, get_info, delete_info,
}
use restic.Prune.Decide.{
  Decision, total_size, count_pack, count_removed, count_kept, decide_pack, unindexed, examine,
}

abbrev pub seen : BlobId → PackInfo → Decision → Decision
seen id p d = record d { stats = count_pack p d.stats; infos = delete_info id d.infos }

abbrev judged :
    PruneOptions → ℕ → ℕ → BlobId → ℕ → Decision → Option PackInfo → Result PruneError Decision
judged opts version target id size d none = ok (unindexed id size d)
judged opts version target id size d (some p) =
    if not (total_size p == size) && not (p.used_blobs == 0)
    then err size_not_matching
    else ok (decide_pack opts version target id size p (seen id p d))

examine_lem :
    (opts : PruneOptions) (version target : ℕ) (id : BlobId) (size : ℕ) (d : Decision)
    → examine opts version target id size d
      ≡ judged opts version target id size d (get_info id d.infos)
unfolding examine
examine_lem opts version target id size d = ground arith

-- The cases of a step that succeeds.
abbrev pub Indexed : PruneOptions → ℕ → ℕ → BlobId → ℕ → Decision → Decision → Type 0
Indexed opts version target id size d d' =
    (p : PackInfo) × (get_info id d.infos ≡ some p)
    × ((total_size p ≡ size) ⊎ (p.used_blobs ≡ 0))
    × (d' ≡ decide_pack opts version target id size p (seen id p d))

fitting :
    (opts : PruneOptions) (version target : ℕ) (id : BlobId) (size : ℕ) (d d' : Decision)
    (p : PackInfo)
    → judged opts version target id size d (some p) ≡ ok d'
    → ((total_size p ≡ size) ⊎ (p.used_blobs ≡ 0))
      × (d' ≡ decide_pack opts version target id size p (seen id p d))
fitting opts version target id size d d' p h = ground arith

pub examine-cases :
    (opts : PruneOptions) (version target : ℕ) (id : BlobId) (size : ℕ) (d d' : Decision)
    → examine opts version target id size d ≡ ok d'
    → (get_info id d.infos ≡ none) × (d' ≡ unindexed id size d)
      ⊎ Indexed opts version target id size d d'
examine-cases opts version target id size d d' h =
    let j = sym (examine_lem opts version target id size d) ∙ h in
    elim (Option-cases (get_info id d.infos)) [
      | inl e ↦ inl (
        e,
        sym (
            ok-injective (unindexed id size d) d'
              (ap (judged opts version target id size d) (sym e) ∙ j)),
      )
      | inr (p, e) ↦
          let (fits, is) =
            fitting opts version target id size d d' p
              (ap (judged opts version target id size d) (sym e) ∙ j) in
          inr (p, e, fits, is)
    ]

pub decide_pack-infos :
    (opts : PruneOptions) (version target : ℕ) (id : BlobId) (size : ℕ) (p : PackInfo)
    (d : Decision)
    → (decide_pack opts version target id size p d).infos ≡ d.infos
unfolding decide_pack
decide_pack-infos opts version target id size p d = ground arith

pub decide_pack-remove :
    (opts : PruneOptions) (version target : ℕ) (id : BlobId) (size : ℕ) (p : PackInfo)
    (d : Decision)
    → ((decide_pack opts version target id size p d).remove ≡ d.remove)
      ⊎ (p.used_blobs ≡ 0)
        × ((decide_pack opts version target id size p d).remove ≡ insert_id id d.remove)
unfolding decide_pack
decide_pack-remove opts version target id size p d = ground arith

pub decide_pack-repack :
    (opts : PruneOptions) (version target : ℕ) (id : BlobId) (size : ℕ) (p : PackInfo)
    (d : Decision)
    → (decide_pack opts version target id size p d).stats.size.repack ≡ d.stats.size.repack
unfolding decide_pack count_removed count_kept
decide_pack-repack opts version target id size p d = ground arith

pub count_pack-repack :
    (p : PackInfo) (s : PruneStats) → (count_pack p s).size.repack ≡ s.size.repack
unfolding count_pack
count_pack-repack p s = ground arith
