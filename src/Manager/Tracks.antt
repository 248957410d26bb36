-- ===== src/Manager/Tracks.antt =====
-- Every task of the manager has its stats, under its own range.
use sdownload.Prelude.{
  ℕ, ◌≡◌, refl, ◌∙◌, false, Option, some, List, [], ◌∷◌, inl, inr, Bool-cases, arith,
}
use sdownload.Prelude.Dict.{
  Dict, lookup, contains, insert, erase, lookup-insert, lookup-insert_self,
}
use sdownload.Models.Range.{ChunkRange, range_eq, range_beq, range_beq_iff}
use sdownload.Stats.{ChunkDownloadStats, pending}
use sdownload.Manager.{
  ChunkTask, ChunkManager, download, registered_stats, is_completed_chunk, start_chunk, pop_tasks,
}

-- What stands under a range is of that range.
abbrev pub IsKeyed : Dict ChunkRange ChunkDownloadStats → Type 0
IsKeyed stats = (r : ChunkRange) (st : ChunkDownloadStats) → lookup r stats ≡ some st → st.range ≡ r

-- Every task has stats under its range.
abbrev pub HaveStats : Dict ChunkRange ChunkDownloadStats → Dict ChunkRange ChunkTask → Type 0
HaveStats stats [] = Unit
HaveStats stats ((r, t) ∷ tasks) =
    ((st : ChunkDownloadStats) × (lookup r stats ≡ some st)) × HaveStats stats tasks

abbrev pub IsTracked : ChunkManager → Type 0
IsTracked self = HaveStats self.chunks_stats self.chunks_tasks × IsKeyed self.chunks_stats

pub IsKeyed-insert :
    (k : ChunkRange) (st : ChunkDownloadStats) (stats : Dict ChunkRange ChunkDownloadStats)
    → st.range ≡ k
    → IsKeyed stats
    → IsKeyed (insert k st stats)
IsKeyed-insert k st stats e h r found_st found =
    ground (arith, range_beq_iff k r, lookup-insert k r st stats, h r found_st)

has-insert :
    (k r : ChunkRange) (st old : ChunkDownloadStats) (stats : Dict ChunkRange ChunkDownloadStats)
    → lookup r stats ≡ some old
    → (new : ChunkDownloadStats) × (lookup r (insert k st stats) ≡ some new)
has-insert k r st old stats e = elim (Bool-cases (range_beq k r)) [
  | inl same ↦ (st, rw same at (lookup-insert k r st stats))
  | inr other ↦ (old, rw other at (lookup-insert k r st stats) ∙ e)
]

pub HaveStats-more :
    (k : ChunkRange) (st : ChunkDownloadStats) (stats : Dict ChunkRange ChunkDownloadStats)
    (tasks : Dict ChunkRange ChunkTask)
    → HaveStats stats tasks
    → HaveStats (insert k st stats) tasks
HaveStats-more k st stats [] h = h
HaveStats-more k st stats ((r, t) ∷ tasks) ((old, e), h) =
    (has-insert k r st old stats e, HaveStats-more k st stats tasks h)

pub HaveStats-insert :
    (k : ChunkRange) (t : ChunkTask) (st : ChunkDownloadStats)
    (stats : Dict ChunkRange ChunkDownloadStats) (tasks : Dict ChunkRange ChunkTask)
    → lookup k stats ≡ some st
    → HaveStats stats tasks
    → HaveStats stats (insert k t tasks)
HaveStats-insert k t st stats [] e h = ((st, e), tt)
HaveStats-insert k t st stats ((r, u) ∷ tasks) e (has, h) = elim (Bool-cases (range_beq r k)) [
  | inl same ↦ rw same (has, h)
  | inr other ↦ rw other (has, HaveStats-insert k t st stats tasks e h)
]

HaveStats-erase :
    (k : ChunkRange) (stats : Dict ChunkRange ChunkDownloadStats)
    (tasks : Dict ChunkRange ChunkTask)
    → HaveStats stats tasks
    → HaveStats stats (erase k tasks)
HaveStats-erase k stats [] h = h
HaveStats-erase k stats ((r, u) ∷ tasks) (has, h) = elim (Bool-cases (range_beq r k)) [
  | inl same ↦ rw same (HaveStats-erase k stats tasks h)
  | inr other ↦ rw other (has, HaveStats-erase k stats tasks h)
]

pub HaveStats-pop :
    (sts : List ChunkDownloadStats) (stats : Dict ChunkRange ChunkDownloadStats)
    (tasks : Dict ChunkRange ChunkTask)
    → HaveStats stats tasks
    → HaveStats stats (pop_tasks sts tasks)
HaveStats-pop [] stats tasks h = h
HaveStats-pop (st ∷ sts) stats tasks h =
    HaveStats-pop sts stats (erase st.range tasks) (HaveStats-erase st.range stats tasks h)

registered-found :
    (k : ChunkRange) (st : ChunkDownloadStats) (stats : Dict ChunkRange ChunkDownloadStats)
    → lookup k (insert k st stats) ≡ some st
registered-found k st stats = lookup-insert_self k st stats

-- To start a chunk keeps every task tracked.
pub start_chunk-IsTracked :
    (chunk_range : ChunkRange) (target_speed_bps : Option ℕ) (now : ℕ) (self : ChunkManager)
    → IsTracked self
    → IsTracked (start_chunk chunk_range target_speed_bps now self)
unfolding start_chunk
start_chunk-IsTracked r target now self (h, keyed) =
    let st = registered_stats r target pending now self in
    elim (Bool-cases (is_completed_chunk (lookup r self.chunks_stats))) [
      | inl already ↦ rw already (h, keyed)
      | inr missing ↦ elim (Bool-cases (contains r self.chunks_tasks)) [
        | inl running ↦ rw (missing, running) (h, keyed)
        | inr idle ↦
            rw (missing, idle)
              (
                HaveStats-insert r (record { work = download r; init_signal = false }) st
                    (insert r st self.chunks_stats) self.chunks_tasks
                    (registered-found r st self.chunks_stats)
                    (HaveStats-more r st self.chunks_stats self.chunks_tasks h),
                IsKeyed-insert r st self.chunks_stats refl keyed,
              )
      ]
    ]
