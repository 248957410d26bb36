-- ===== src/Manager/Stops.antt =====
-- The operations of `ChunkManager` that stop tasks, and those that read or change the stats. What the
-- running tasks do to the stats while a task is awaited is a parameter.
use sdownload.Prelude.{ℕ, ◌+◌, Bool, true, false, ◌||◌, Option, none, some, [], ◌∷◌, if◌then◌else◌}
use sdownload.Prelude.Int.{negsuc, pos, ℤ}
use sdownload.Prelude.Dict.{Dict, lookup, contains, insert, erase, values}
use sdownload.Models.Text.{Text}
use sdownload.Models.Range.{ChunkRange, range_eq}
use sdownload.Exceptions.{reconstruction_error, Result, ok, err, key_error}
use sdownload.Storage.Protocol.{FileStorage}
use sdownload.Stats.{
  ChunkDownloadStats, DownloadStatus, pending, downloading, completed, cancelled, update_chunk,
}
use sdownload.Chunks.Cleanup.{cleanup_temp_files}
use sdownload.Chunks.Reconstruct.{reconstruct_file}
use sdownload.Chunks.Succession.{is_awaiting}
use sdownload.Manager.{List, ChunkTask, ChunkManager, check_stop_monitor, is_running}

abbrev pub StatsDict : Type 0
StatsDict = Dict ChunkRange ChunkDownloadStats

abbrev pub is_pending : DownloadStatus → Bool
is_pending pending = true
is_pending _ = false

abbrev pub counts : DownloadStatus → Bool
counts completed = true
counts downloading = true
counts _ = false

-- `get_downloaded_bytes`
abbrev pub downloaded_bytes : StatsDict → ℕ
downloaded_bytes [] = 0
downloaded_bytes ((r, st) ∷ stats) =
    (if counts st.status then st.bytes_downloaded else 0) + downloaded_bytes stats

abbrev pub limit_all : Option ℕ → StatsDict → StatsDict
limit_all speed_bps [] = []
limit_all speed_bps ((r, st) ∷ stats) =
    (r, record st { target_speed_bps = speed_bps }) ∷ limit_all speed_bps stats

-- `set_speed_limit` for one chunk, or for all.
abbrev pub set_speed_limit : Option ℕ → Option ChunkRange → ChunkManager → ChunkManager
set_speed_limit speed_bps none self = record self {
  chunks_stats = limit_all speed_bps self.chunks_stats;
}
set_speed_limit speed_bps (some chunk_range) self = elim (lookup chunk_range self.chunks_stats) [
  | none ↦ self
  | some st ↦ record self {
    chunks_stats =
        insert chunk_range (record st { target_speed_bps = speed_bps }) self.chunks_stats;
  }
]

-- The manager with the stats of a chunk updated, as `cancel_chunk` does first.
abbrev pub updated : ChunkRange → ChunkDownloadStats → ℕ → ChunkManager → ChunkManager
updated chunk_range st now self = record self {
  chunks_stats = insert chunk_range (update_chunk now st) self.chunks_stats;
}

-- `reconstruct_file` with any integer for the size. A negative size is never reached by the search of
-- `calculate_optimal_coverage`, which raises then.
abbrev pub reconstruct_sized :
    (storage : FileStorage)
    → List ChunkDownloadStats
    → Text
    → Option ℤ
    → storage.State
    → Result Text × storage.State
reconstruct_sized storage stats_list file_name none s =
    reconstruct_file storage stats_list file_name none s
reconstruct_sized storage stats_list file_name (some (pos n)) s =
    reconstruct_file storage stats_list file_name (some n) s
reconstruct_sized storage stats_list file_name (some (negsuc n)) s = (err reconstruction_error, s)

module _ (settle : StatsDict → StatsDict) where
  abbrev pub cancel_known :
      ChunkRange → Option ChunkDownloadStats → ℕ → ChunkManager → Result Bool × ChunkManager
  cancel_known chunk_range none now self = (err key_error, self)
  cancel_known chunk_range (some st) now self =
      let fresh = updated chunk_range st now self in
      if is_running st.status || is_awaiting st.status
      then (
        ok true,
        check_stop_monitor (record fresh {
          chunks_stats = settle fresh.chunks_stats;
          chunks_tasks = erase chunk_range self.chunks_tasks;
        }),
      )
      else (ok false, fresh)

  unfoldable pub cancel_chunk : ChunkRange → ℕ → ChunkManager → Result Bool × ChunkManager
  cancel_chunk chunk_range now self =
      if contains chunk_range self.chunks_tasks
      then cancel_known chunk_range (lookup chunk_range self.chunks_stats) now self
      else (ok false, self)

  -- The loop of `cancel_all_chunks`: a task that has not begun shows its cancellation at once.
  abbrev pub mark_cancelled : Dict ChunkRange ChunkTask → StatsDict → StatsDict
  mark_cancelled [] stats = stats
  mark_cancelled ((r, t) ∷ tasks) stats = mark_cancelled tasks (elim (lookup r stats) [
    | none ↦ stats
    | some st ↦
        if is_pending st.status || is_awaiting st.status
        then insert r (record st { status = cancelled }) stats
        else stats
  ])

  -- `asyncio.gather` waits for the tasks, if there are any.
  abbrev pub gathered : Dict ChunkRange ChunkTask → StatsDict → StatsDict
  gathered [] stats = stats
  gathered (t ∷ tasks) stats = settle (mark_cancelled (t ∷ tasks) stats)

  unfoldable pub cancel_all_chunks : ChunkManager → ChunkManager
  cancel_all_chunks self = record self {
    chunks_stats = gathered self.chunks_tasks self.chunks_stats;
    chunks_tasks = [];
    monitor_done = none;
  }

  module _ (storage : FileStorage) where
    -- `delete_data`, whose exceptions are logged only.
    abbrev pub delete_popped :
        ChunkRange → ChunkManager × storage.State → ChunkManager × storage.State
    delete_popped chunk_range (self, s) = elim (lookup chunk_range self.chunks_stats) [
      | none ↦ (self, s)
      | some st ↦ (
        record self { chunks_stats = erase chunk_range self.chunks_stats },
        (storage.delete_data st.chunk_file_name s).1,
      )
    ]

    abbrev pub after_cancel :
        ChunkRange
        → storage.State
        → Result Bool × ChunkManager
        → Result (Unit {0}) × ChunkManager × storage.State
    after_cancel chunk_range s (err e, self) = (err e, self, s)
    after_cancel chunk_range s (ok b, self) =
        let (popped, s1) = delete_popped chunk_range (self, s) in (ok tt, popped, s1)

    unfoldable pub delete_chunk_data :
        ChunkRange
        → ℕ
        → ChunkManager
        → storage.State
        → Result (Unit {0}) × ChunkManager × storage.State
    delete_chunk_data chunk_range now self s =
        after_cancel chunk_range s (cancel_chunk chunk_range now self)

    -- `cleanup`: stats are cleared once the files are deleted, or at once if they are kept.
    abbrev pub after_deleting :
        ChunkManager
        → Result (Unit {0}) × storage.State
        → Result (Unit {0}) × ChunkManager × storage.State
    after_deleting self (err e, s) = (err e, self, s)
    after_deleting self (ok u, s) = (ok tt, record self { chunks_stats = [] }, s)

    abbrev pub stopped : ChunkManager → ChunkManager
    stopped self = cancel_all_chunks (record self { cleaned_up = true })

    unfoldable pub cleanup :
        Bool → ChunkManager → storage.State → Result (Unit {0}) × ChunkManager × storage.State
    cleanup delete_files self s =
        if self.cleaned_up
        then (ok tt, self, s)
        else after_deleting (stopped self) (
            if delete_files
            then cleanup_temp_files storage (values (stopped self).chunks_stats) s
            else (ok tt, s))

    abbrev pub with_key :
        Text
        → Result (Unit {0}) × ChunkManager × storage.State
        → Result Text × ChunkManager × storage.State
    with_key key (ok u, self, s) = (ok key, self, s)
    with_key key (err e, self, s) = (err e, self, s)

    abbrev pub after_reconstruction :
        Bool
        → ChunkManager
        → Result Text × storage.State
        → Result Text × ChunkManager × storage.State
    after_reconstruction clean self (err e, s) = (err e, self, s)
    after_reconstruction clean self (ok key, s) =
        if clean then with_key key (cleanup true self s) else (ok key, self, s)

    unfoldable pub merge_chunks :
        Bool → ChunkManager → storage.State → Result Text × ChunkManager × storage.State
    merge_chunks clean self s =
        after_reconstruction clean self
          (reconstruct_sized storage (values self.chunks_stats) self.file_name self.file_size s)
