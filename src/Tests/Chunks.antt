-- ===== src/Tests/Chunks.antt =====
-- Chunks that are cut short, observed, cleaned up and reconstructed.
use sdownload.Prelude.{◌≡◌, refl, none, some, [], ◌∷◌, take, drop, arith, if◌then◌else◌}
use sdownload.Models.Text.{Text, codes}
use sdownload.Models.Range.{ChunkRange}
use sdownload.Exceptions.{ok}
use sdownload.Storage.Protocol.{put}
use sdownload.Storage.Local.{Files}
use sdownload.Storage.Local.Laws.{content}
use sdownload.Stats.{
  cancelled, ChunkDownloadStats, StopCallback, new_stats, awaiting_succession, downloading,
  completed, deprecated, add_limit_observer,
}
use sdownload.Stats.Observer.{called, add_pieces, add_limit_observer-once}
use sdownload.Chunks.Cleanup.{cleanup_temp_files}
use sdownload.Chunks.Cleans.{is_named, cleanup_temp_files-content}
use sdownload.Chunks.Reconstruct.{reconstruct_file}
use sdownload.Chunks.Outcome.{HasEnded, reconstruct_file-HasEnded}
use sdownload.Chunks.Succession.{Waited, Both, run_chunk_succession, task_cancelled, interrupted}
use sdownload.Chunks.Succeeds.{run_chunk_succession-completes}
use sdownload.Chunks.Settles.{HasSettled, run_chunk_succession-HasSettled}
use sdownload.Tests.Downloads.{source, storage, stats_list, files, file_name}

abbrev long_range : ChunkRange
long_range = record { start = 1; end = some 9 }

abbrev short_range : ChunkRange
short_range = record { start = 2; end = some 5 }

abbrev long_chunk : ChunkDownloadStats
long_chunk = record (new_stats (codes "a") long_range none downloading none 0) {
  bytes_downloaded = 6;
  limit_qt_bytes = 5;
}

abbrev short_chunk : ChunkDownloadStats
short_chunk = new_stats (codes "b") short_range none awaiting_succession none 0

abbrev cut_file : Files
cut_file = (codes "a", take 6 (drop 1 source)) ∷ []

abbrev cut_chunks : Both storage
cut_chunks = record { predecessor = long_chunk; successor = short_chunk; files = cut_file }

run_chunk_succession-completes_example :
    let (r, after) = run_chunk_succession storage task_cancelled cut_chunks in
    (r ≡ ok short_range)
    × (after.successor.status ≡ completed)
    × (after.predecessor.status ≡ deprecated)
    × ((key : Text)
        → content after.files key
          ≡ put
              (codes "b")
              (some (12 ∷ 13 ∷ 14 ∷ 15 ∷ []))
              (put (codes "a") none (content cut_file))
              key)
run_chunk_succession-completes_example =
    run_chunk_succession-completes storage task_cancelled cut_chunks source (take 6 (drop 1 source))
      tt refl (omega arith) (omega arith) (omega arith) (omega arith, omega arith) refl
      (record { front = refl; counted = refl })

-- The predecessor's task was running, and is marked as cancelled.
abbrev stops_first : Waited
stops_first =
    interrupted (some (record { stats = λ st. record st { status = cancelled }; failure = none }))

run_chunk_succession-HasSettled_example :
    HasSettled storage stops_first cut_chunks (run_chunk_succession storage stops_first cut_chunks)
run_chunk_succession-HasSettled_example =
    run_chunk_succession-HasSettled storage stops_first cut_chunks

reconstruct_file-HasEnded_example :
    HasEnded storage file_name files (reconstruct_file storage stats_list file_name none files)
reconstruct_file-HasEnded_example =
    reconstruct_file-HasEnded storage file_name stats_list none files

cleanup_temp_files-content_example :
    content (cleanup_temp_files storage (long_chunk ∷ []) cut_file).1 (codes "a")
    ≡ (if is_named (codes "a") (codes "a" ∷ []) then none else content cut_file (codes "a"))
cleanup_temp_files-content_example =
    cleanup_temp_files-content storage (long_chunk ∷ []) cut_file (codes "a")

abbrev stop : StopCallback
stop = record { current_range = long_range; new_range = short_range }

add_limit_observer-once_example :
    let (observed, call) = add_limit_observer 5 stop short_chunk in
    let (after, calls) = add_pieces (3 ∷ 3 ∷ 3 ∷ []) observed in
    (after.bytes_downloaded ≡ 9) × (called call calls ≡ stop ∷ [])
add_limit_observer-once_example = add_limit_observer-once 5 stop (3 ∷ 3 ∷ 3 ∷ []) short_chunk refl
