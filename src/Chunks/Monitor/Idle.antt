-- ===== src/Chunks/Monitor/Idle.antt =====
-- When the monitor ends, and what it leaves as it was.
use sdownload.Prelude.{
  ℕ, zero, suc, ◌≡◌, Bool, true, false, some, [], ◌∷◌, refl, ap, ◌∙◌, arith, Bool-cases, inl, inr,
}
use sdownload.Prelude.Dict.{Dict}
use sdownload.Models.Range.{ChunkRange}
use sdownload.Stats.{ChunkDownloadStats, DownloadStatus, pending, downloading}
use sdownload.Chunks.Monitor.{Survey, see, survey, is_active, monitor_download_progress}

-- `PENDING` or `DOWNLOADING`
abbrev pub is_busy : DownloadStatus → Bool
is_busy pending = true
is_busy downloading = true
is_busy _ = false

abbrev pub AreIdle : Dict ChunkRange ChunkDownloadStats → Type 0
AreIdle [] = Unit
AreIdle ((range, stats) ∷ rest) = (is_busy stats.status ≡ false) × AreIdle rest

see-AreIdle :
    (now : ℕ) (status : DownloadStatus) (range : ChunkRange) (stats : ChunkDownloadStats)
    (found : Survey)
    → stats.status ≡ status
    → is_active (see now status range stats found) ≡ false
    → (is_active found ≡ false)
      × (AreIdle found.chunks_stats → AreIdle (see now status range stats found).chunks_stats)
see-AreIdle now downloading range stats found e h = absurd (ground (arith, h))
see-AreIdle now pending range stats found e h = absurd (ground (arith, h))
see-AreIdle now status range stats found e h = (ground (arith, h), λ idle. (ap is_busy e, idle))

-- A survey that finds nothing active leaves idle chunks.
survey-AreIdle :
    (now : ℕ) (stats : Dict ChunkRange ChunkDownloadStats)
    → is_active (survey now stats) ≡ false
    → AreIdle (survey now stats).chunks_stats
survey-AreIdle now [] h = ground arith
survey-AreIdle now ((range, stats) ∷ rest) h =
    let (below, idle) = see-AreIdle now stats.status range stats (survey now rest) refl h in
    idle (survey-AreIdle now rest below)

see-inactive :
    (now : ℕ) (status : DownloadStatus) (range : ChunkRange) (stats : ChunkDownloadStats)
    (found : Survey)
    → is_busy status ≡ false
    → is_active found ≡ false
    → is_active (see now status range stats found) ≡ false
see-inactive now downloading range stats found e h = absurd cc
see-inactive now pending range stats found e h = absurd cc
see-inactive now _ range stats found e h = ground (arith, h)

survey-inactive :
    (now : ℕ) (stats : Dict ChunkRange ChunkDownloadStats)
    → AreIdle stats
    → is_active (survey now stats) ≡ false
survey-inactive now [] h = refl
survey-inactive now ((range, stats) ∷ rest) (idle, others) =
    see-inactive now stats.status range stats (survey now rest) idle
      (survey-inactive now rest others)

module _ (others : ℕ → Dict ChunkRange ChunkDownloadStats → Dict ChunkRange ChunkDownloadStats)
    (clock : ℕ → ℕ) where
  -- The stats before the j-th round from the k-th on, if the monitor goes on until then.
  abbrev pub stats_before :
      ℕ → ℕ → Dict ChunkRange ChunkDownloadStats → Dict ChunkRange ChunkDownloadStats
  stats_before zero k stats = stats
  stats_before (suc j) k stats =
      stats_before j (suc k) (others k (survey (clock k) stats).chunks_stats)

  inactive-ends :
      (fuel k : ℕ) (stats : Dict ChunkRange ChunkDownloadStats)
      → is_active (survey (clock k) stats) ≡ false
      → (final : Dict ChunkRange ChunkDownloadStats) × (monitor_download_progress others clock
            (suc fuel)
            k
            stats
          ≡ some final)
        × AreIdle final
  unfolding monitor_download_progress
  inactive-ends fuel k stats h =
      ((survey (clock k) stats).chunks_stats, rw h refl, survey-AreIdle (clock k) stats h)

  active-next :
      (fuel k : ℕ) (stats : Dict ChunkRange ChunkDownloadStats)
      → is_active (survey (clock k) stats) ≡ true
      → monitor_download_progress others clock (suc fuel) k stats
        ≡ monitor_download_progress others clock fuel
            (suc k)
            (others k (survey (clock k) stats).chunks_stats)
  unfolding monitor_download_progress
  active-next fuel k stats h = rw h refl

  -- If the other tasks leave no chunk pending or downloading by some round, the monitor has ended by
  -- this round, and leaves no chunk pending or downloading.
  pub monitor_download_progress_ends :
      (j k : ℕ) (stats : Dict ChunkRange ChunkDownloadStats)
      → AreIdle (stats_before j k stats)
      → (final : Dict ChunkRange ChunkDownloadStats) × (monitor_download_progress others clock
            (suc j)
            k
            stats
          ≡ some final)
        × AreIdle final
  monitor_download_progress_ends zero k stats idle =
      inactive-ends zero k stats (survey-inactive (clock k) stats idle)
  monitor_download_progress_ends (suc j) k stats idle =
      elim (Bool-cases (is_active (survey (clock k) stats))) [
        | inl active ↦
            let (final, e, left) =
              monitor_download_progress_ends j (suc k)
                (others k (survey (clock k) stats).chunks_stats) idle in
            (final, active-next (suc j) k stats active ∙ e, left)
        | inr inactive ↦ inactive-ends (suc j) k stats inactive
      ]
