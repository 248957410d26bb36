-- ===== src/Manager.antt =====
-- services/downloader_manager/chunk_manager.py: the stats and the tasks of a download. What a task
-- does runs beside the manager; here are the operations that do not await a task, and the wait for
-- tasks, given which of them are done.
pub mod Tracks
pub mod Resizes
pub mod Waits
pub mod Stops
pub mod Merges
pub mod Streams
pub mod Drains
use sdownload.Prelude.{
  ℕ, ◌+◌, ◌-◌, Bool, true, false, ◌&&◌, ◌||◌, not, ◌==◌, Option, none, some, List, [], ◌∷◌, map,
  if◌then◌else◌,
}
use sdownload.Prelude.Int.{ℤ}
use sdownload.Prelude.Dict.{Dict, lookup, contains, insert, erase}
use sdownload.Models.Text.{Text}
use sdownload.Models.Range.{ChunkRange, range_eq, range_beq, contains_range}
use sdownload.Exceptions.{Exc, Result, ok, err, value_error, key_error, lifecycle_error}
use sdownload.Stats.{
  ChunkDownloadStats, DownloadStatus, pending, downloading, awaiting_succession, completed,
  is_completed, StopCallback, new_stats, add_limit_observer,
}
use sdownload.Chunks.{format_chunk_file_name, get_effective_range_info}

-- The coroutine of a task.
pub data Work : Type 0 where
  download : ChunkRange → Work
  succession : ChunkRange → ChunkRange → Work

-- `ChunkTaskContext`
pub record ChunkTask : Type 0 where
  pub work : Work
  pub init_signal : Bool

pub record ChunkManager : Type 0 where
  pub file_name : Text
  pub file_size : Option ℤ
  pub chunks_stats : Dict ChunkRange ChunkDownloadStats
  pub chunks_tasks : Dict ChunkRange ChunkTask
  -- `none`, or whether the task of the monitor is done.
  pub monitor_done : Option Bool
  pub cleaned_up : Bool

-- The stats that `_register_chunk_stats` makes, and the manager that has them.
abbrev pub registered_stats :
    ChunkRange → Option ℕ → DownloadStatus → ℕ → ChunkManager → ChunkDownloadStats
registered_stats chunk_range target_speed_bps status now self =
    new_stats (format_chunk_file_name chunk_range self.file_name) chunk_range
      (get_effective_range_info chunk_range self.file_size).1 status target_speed_bps now

abbrev pub register_chunk_stats :
    ChunkRange → Option ℕ → DownloadStatus → ℕ → ChunkManager → ChunkManager
register_chunk_stats chunk_range target_speed_bps status now self = record self {
  chunks_stats =
      insert chunk_range (registered_stats chunk_range target_speed_bps status now self)
        self.chunks_stats;
}

-- `_check_stop_monitor`
abbrev pub check_stop_monitor : ChunkManager → ChunkManager
check_stop_monitor self = elim self.chunks_tasks [
  | [] ↦ record self { monitor_done = none }
  | t ∷ ts ↦ self
]

-- The monitor runs after a chunk was started: the old one, or a new one.
abbrev pub with_monitor : Option Bool → Option Bool
with_monitor none = some false
with_monitor (some done) = some false

abbrev pub is_completed_chunk : Option ChunkDownloadStats → Bool
is_completed_chunk none = false
is_completed_chunk (some stats) = is_completed stats.status

unfoldable pub start_chunk : ChunkRange → Option ℕ → ℕ → ChunkManager → ChunkManager
start_chunk chunk_range target_speed_bps now self =
    if is_completed_chunk (lookup chunk_range self.chunks_stats)
    then self
    else if contains chunk_range self.chunks_tasks
    then self
    else let registered = register_chunk_stats chunk_range target_speed_bps pending now self in
      record registered {
        chunks_tasks =
            insert chunk_range (record { work = download chunk_range; init_signal = false })
              self.chunks_tasks;
        monitor_done = with_monitor self.monitor_done;
      }

-- `PENDING` or `DOWNLOADING`
abbrev pub is_running : DownloadStatus → Bool
is_running pending = true
is_running downloading = true
is_running _ = false

-- `limit`, which is read as `None` if it is 0, for a new range in the current one.
abbrev pub succession_limit : ChunkRange → ChunkRange → ℕ
succession_limit current_range new_range = elim new_range.end [
  | none ↦ 0
  | some e ↦ e + 1 - current_range.start
]

-- `stats_a` after the resize, with the callback that was called at once, if any.
abbrev pub observed :
    ChunkRange → ChunkRange → ChunkDownloadStats → ChunkDownloadStats × Option StopCallback
observed current_range new_range stats_a =
    if not (succession_limit current_range new_range == 0) && is_running stats_a.status
    then add_limit_observer (succession_limit current_range new_range)
        (record { current_range = current_range; new_range = new_range }) stats_a
    else (stats_a, none)

-- The part of `resize_chunk` behind its checks.
abbrev pub resize_to :
    ChunkRange
    → ChunkRange
    → ChunkDownloadStats
    → ℕ
    → ChunkManager
    → ChunkManager × Option StopCallback
resize_to current_range new_range stats_a now self =
    let registered =
      register_chunk_stats new_range stats_a.target_speed_bps awaiting_succession now self in
    let (stats_a', called) = observed current_range new_range stats_a in
    (
      record registered {
        chunks_stats = insert current_range stats_a' registered.chunks_stats;
        chunks_tasks =
            insert new_range
              (record { work = succession current_range new_range; init_signal = false })
              self.chunks_tasks;
      },
      called,
    )

abbrev pub resized :
    ChunkManager × Option StopCallback → Result (Option StopCallback) × ChunkManager
resized (self, called) = (ok called, self)

abbrev pub resize_known :
    ChunkRange
    → ChunkRange
    → Option ChunkDownloadStats
    → ℕ
    → ChunkManager
    → Result (Option StopCallback) × ChunkManager
resize_known current_range new_range none now self =
    (if contains current_range self.chunks_tasks then err lifecycle_error else err key_error, self)
resize_known current_range new_range (some stats_a) now self =
    if range_beq new_range current_range
    then (ok none, self)
    else if is_running stats_a.status || is_completed stats_a.status
    then resized (resize_to current_range new_range stats_a now self)
    else (err value_error, self)

unfoldable pub resize_chunk :
    ChunkRange → ChunkRange → ℕ → ChunkManager → Result (Option StopCallback) × ChunkManager
resize_chunk current_range new_range now self =
    if contains_range current_range new_range
    then resize_known current_range new_range (lookup current_range self.chunks_stats) now self
    else (err value_error, self)

-- The loop over the tasks in `_wait_for_chunks`: the stats of those that are done.
abbrev pub done_stats :
    (ChunkRange → Bool)
    → Dict ChunkRange ChunkDownloadStats
    → Dict ChunkRange ChunkTask
    → Result (List ChunkDownloadStats)
done_stats done stats [] = ok []
done_stats done stats ((r, t) ∷ tasks) =
    let more = done_stats done stats tasks in
    if done r
    then elim (lookup r stats) [
      | none ↦ err key_error
      | some st ↦ elim more [ ok sts ↦ ok (st ∷ sts) | err e ↦ err e ]
    ]
    else more

abbrev pub pop_tasks :
    List ChunkDownloadStats → Dict ChunkRange ChunkTask → Dict ChunkRange ChunkTask
pop_tasks [] tasks = tasks
pop_tasks (st ∷ sts) tasks = pop_tasks sts (erase st.range tasks)

abbrev pub after_wait :
    Result (List ChunkDownloadStats)
    → ChunkManager
    → Result (List ChunkDownloadStats) × ChunkManager
after_wait (err e) self = (err e, self)
after_wait (ok sts) self =
    (ok sts, check_stop_monitor (record self { chunks_tasks = pop_tasks sts self.chunks_tasks }))

-- `_wait_for_chunks` on its tasks: without any it returns at once.
abbrev pub wait_on :
    (ChunkRange → Bool)
    → Dict ChunkRange ChunkTask
    → ChunkManager
    → Result (List ChunkDownloadStats) × ChunkManager
wait_on done [] self = (ok [], self)
wait_on done (t ∷ ts) self = after_wait (done_stats done self.chunks_stats (t ∷ ts)) self

-- `_wait_for_chunks`, when `asyncio.wait` returns with the tasks that are `done`.
unfoldable pub wait_for_chunks :
    (ChunkRange → Bool) → ChunkManager → Result (List ChunkDownloadStats) × ChunkManager
wait_for_chunks done self = wait_on done self.chunks_tasks self
