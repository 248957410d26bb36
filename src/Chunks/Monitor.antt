-- ===== src/Chunks/Monitor.antt =====
-- chunk_utils/monitor.py: the rounds that update the rates of the downloading chunks. What other
-- tasks do to the stats while the monitor sleeps, and the clock, are arguments.
pub mod Idle
use sdownload.Prelude.{
  ℕ, zero, suc, ◌+◌, Bool, true, false, Option, none, some, List, [], ◌∷◌, ltb, length,
  if◌then◌else◌,
}
use sdownload.Prelude.Dict.{Dict}
use sdownload.Models.Range.{ChunkRange}
use sdownload.Stats.{
  ChunkDownloadStats, DownloadStatus, pending, downloading, Quotient, update_chunk,
}

-- What one pass over the chunks finds; the total speed is the list of its summands.
pub record Survey : Type 0 where
  pub chunks_stats : Dict ChunkRange ChunkDownloadStats
  pub speeds : List Quotient
  pub downloading_stats : List ChunkDownloadStats
  pub pending_count : ℕ

abbrev pub see_downloading : ChunkRange → ChunkDownloadStats → Survey → Survey
see_downloading range stats found = record {
  chunks_stats = (range, stats) ∷ found.chunks_stats;
  speeds = stats.speed_bps ∷ found.speeds;
  downloading_stats = stats ∷ found.downloading_stats;
  pending_count = found.pending_count;
}

abbrev pub see_other : ℕ → ChunkRange → ChunkDownloadStats → Survey → Survey
see_other count range stats found = record found {
  chunks_stats = (range, stats) ∷ found.chunks_stats;
  pending_count = count + found.pending_count;
}

-- One chunk of the loop.
abbrev pub see : ℕ → DownloadStatus → ChunkRange → ChunkDownloadStats → Survey → Survey
see now downloading range stats found = see_downloading range (update_chunk now stats) found
see now pending range stats found = see_other 1 range stats found
see now _ range stats found = see_other 0 range stats found

-- `for stats in chunks_stats.values()`
abbrev pub survey : ℕ → Dict ChunkRange ChunkDownloadStats → Survey
survey now [] = record { chunks_stats = []; speeds = []; downloading_stats = []; pending_count = 0 }
survey now ((range, stats) ∷ rest) = see now stats.status range stats (survey now rest)

-- `(downloading_count + pending_count) > 0`
abbrev pub is_active : Survey → Bool
is_active found = ltb 0 (length found.downloading_stats + found.pending_count)

module _ (others : ℕ → Dict ChunkRange ChunkDownloadStats → Dict ChunkRange ChunkDownloadStats)
    (clock : ℕ → ℕ) where
  -- `while is_active`, from the k-th round on.
  unfoldable pub monitor_download_progress :
      ℕ → ℕ → Dict ChunkRange ChunkDownloadStats → Option (Dict ChunkRange ChunkDownloadStats)
  monitor_download_progress zero k stats = none
  monitor_download_progress (suc fuel) k stats =
      let found = survey (clock k) stats in
      let next = monitor_download_progress fuel (suc k) (others k found.chunks_stats) in
      if is_active found then next else some found.chunks_stats
