-- ===== src/Tests/Manager.antt =====
-- A chunk manager with one chunk that is started, cut short and waited for, and one that merges.
use sdownload.Prelude.{
  length, Bool, ℕ, suc, ◌≡◌, refl, true, false, none, some, List, [], ◌∷◌, map, if◌then◌else◌,
}
use sdownload.Prelude.Int.{pos}
use sdownload.Prelude.Dict.{Dict, lookup, values}
use sdownload.Models.Range.{range_beq_iff, ChunkRange, range_eq, range_beq}
use sdownload.Exceptions.{ok}
use sdownload.Storage.Protocol.{put}
use sdownload.Storage.Local.Laws.{content}
use sdownload.Stats.{ChunkDownloadStats}
use sdownload.Chunks.Cleans.{is_named}
use sdownload.Manager.{ChunkTask, ChunkManager, start_chunk, resize_chunk, wait_for_chunks}
use sdownload.Manager.Tracks.{IsTracked, start_chunk-IsTracked}
use sdownload.Manager.Resizes.{resize_chunk-IsTracked}
use sdownload.Manager.Waits.{wait_for_chunks-takes}
use sdownload.Manager.Stops.{StatsDict, merge_chunks}
use sdownload.Manager.Merges.{merge_chunks-restores}
use sdownload.Manager.Streams.{as_stream, new_chunk_manager}
use sdownload.Manager.Drains.{Ends, as_stream-Ends, new_chunk_manager-IsTracked}
use sdownload.Tests.Downloads.{
  source, storage, front, back, file_name, files, chunk_stats, chain, is_stored,
}

abbrev new_manager : ChunkManager
new_manager = record {
  file_name = file_name;
  file_size = some (pos 10);
  chunks_stats = [];
  chunks_tasks = [];
  monitor_done = none;
  cleaned_up = false;
}

abbrev short : ChunkRange
short = record { start = 0; end = some 2 }

new_manager-IsTracked : IsTracked new_manager
new_manager-IsTracked = (tt, λ r st e. absurd (cc e))

resize_chunk-IsTracked_example :
    IsTracked (resize_chunk front short 1 (start_chunk front none 0 new_manager)).1
resize_chunk-IsTracked_example =
    resize_chunk-IsTracked front short 1 (start_chunk front none 0 new_manager)
      (start_chunk-IsTracked front none 0 new_manager new_manager-IsTracked)

wait_for_chunks-takes_example :
    (sts : List ChunkDownloadStats) × ((wait_for_chunks
        (range_beq front)
        (start_chunk front none 0 new_manager)).0
      ≡ ok sts)
    × ((r : ChunkRange)
        → lookup r
            (wait_for_chunks
              (range_beq front)
              (start_chunk front none 0 new_manager)).1.chunks_tasks
          ≡ (if range_beq front r
              then none
              else lookup r (start_chunk front none 0 new_manager).chunks_tasks))
wait_for_chunks-takes_example =
    wait_for_chunks-takes (range_beq front) (start_chunk front none 0 new_manager)
      (start_chunk-IsTracked front none 0 new_manager new_manager-IsTracked)

abbrev full_manager : ChunkManager
full_manager = record new_manager {
  chunks_stats = (front, chunk_stats front) ∷ (back, chunk_stats back) ∷ [];
}

abbrev unchanged : StatsDict → StatsDict
unchanged stats = stats

merge_chunks-restores_example :
    content (merge_chunks unchanged storage true full_manager files).2 file_name ≡ (
      if is_named file_name
        (map (λ (c : ChunkDownloadStats). c.chunk_file_name) (values full_manager.chunks_stats))
      then none
      else put file_name (some source) (content files) file_name)
merge_chunks-restores_example =
    merge_chunks-restores unchanged storage full_manager (some 10) files source file_name refl refl
      refl is_stored refl refl chain

-- A manager that recovered the front and downloads the back.
abbrev resumed : ChunkManager
resumed =
    start_chunk back none 0 (new_chunk_manager file_name (some (pos 10)) (chunk_stats front ∷ []))

abbrev as_settled : ℕ → StatsDict → StatsDict
as_settled k stats = stats

-- Each wait finds the first task done.
abbrev first_task : ℕ → ChunkManager → ChunkRange → Bool
first_task k self r = elim self.chunks_tasks [ [] ↦ false | t ∷ ts ↦ range_beq t.0 r ]

first_task-done :
    (k : ℕ) (self : ChunkManager) (t : ChunkRange × ChunkTask) (ts : Dict ChunkRange ChunkTask)
    → self.chunks_tasks ≡ t ∷ ts
    → (r : ChunkRange) × (u : ChunkTask) × (lookup r self.chunks_tasks ≡ some u)
      × (first_task k self r ≡ true)
first_task-done k self (r, u) ts e =
    let same : range_beq r r ≡ true = (range_beq_iff r r).1 refl in
    (r, u, rw (e, same) refl, rw (e, same) refl)

as_stream-Ends_example : Ends resumed.chunks_tasks (
    as_stream as_settled first_task
      (suc (length resumed.chunks_tasks))
      0
      resumed.chunks_tasks
      resumed)
as_stream-Ends_example =
    as_stream-Ends as_settled first_task (λ k self tracked. tracked) first_task-done resumed
      (start_chunk-IsTracked back none 0
        (new_chunk_manager file_name (some (pos 10)) (chunk_stats front ∷ []))
        (new_chunk_manager-IsTracked file_name (some (pos 10)) (chunk_stats front ∷ [])))
