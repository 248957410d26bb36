-- ===== src/Chunks/Reconstruct.antt =====
-- chunk_utils/reconstructor.py: the completed chunks are merged into the final file.
use sdownload.Prelude.{
  if◌then◌else◌, ℕ, zero, suc, ◌>>=◌, Option, none, some, List, [], ◌∷◌, filter, map,
}
use sdownload.Prelude.Dict.{Dict, lookup, insert}
use sdownload.Models.Text.{Text}
use sdownload.Models.Range.{ChunkRange, ChunkFragment, range_eq}
use sdownload.Exceptions.{Result, ok, err, reconstruction_error, is_cancelled_error}
use sdownload.Ranges.Coverage.{Coverage, found, raised, calculate_optimal_coverage}
use sdownload.Storage.Protocol.{FileStorage, FileRangeParams}
use sdownload.Stats.{ChunkDownloadStats, is_completed}

-- `completed_stats`, and `range_map` with the loop that builds it.
abbrev pub completed_stats : List ChunkDownloadStats → List ChunkDownloadStats
completed_stats stats_list = filter (λ s. is_completed s.status) stats_list

abbrev pub range_map_from :
    Dict ChunkRange ChunkDownloadStats
    → List ChunkDownloadStats
    → Dict ChunkRange ChunkDownloadStats
range_map_from known [] = known
range_map_from known (s ∷ stats) = range_map_from (insert s.range s known) stats

-- `(frag.read_limit_qt_bytes - 1) if frag.read_limit_qt_bytes else None`
abbrev pub end_byte_of : Option ℕ → Option ℕ
end_byte_of none = none
end_byte_of (some zero) = none
end_byte_of (some (suc k)) = some k

-- The loop over the fragments; `none` is its `ReconstructionError`.
abbrev pub merge_configs :
    Dict ChunkRange ChunkDownloadStats → List ChunkFragment → Option (List FileRangeParams)
merge_configs range_map [] = some []
merge_configs range_map (frag ∷ fragments) = do
  stats ← lookup frag.range range_map
  configs ← merge_configs range_map fragments
  some (
      record {
        key = stats.chunk_file_name;
        start_byte = some 0;
        end_byte = end_byte_of frag.read_limit_qt_bytes;
      }
      ∷ configs)

module _ (storage : FileStorage) where
  abbrev pub merged_into : Text → Result (Unit {0}) × storage.State → Result Text × storage.State
  merged_into final_filename (ok u, s) = (ok final_filename, s)
  merged_into final_filename (err e, s) =
      if is_cancelled_error e then (err e, s) else (err reconstruction_error, s)

  abbrev pub merge_found :
      Option (List FileRangeParams) → Text → storage.State → Result Text × storage.State
  merge_found none final_filename s = (err reconstruction_error, s)
  merge_found (some configs) final_filename s =
      merged_into final_filename (storage.merge_ranges configs final_filename s)

  abbrev pub merge_fragments :
      List ChunkDownloadStats → Coverage → Text → storage.State → Result Text × storage.State
  merge_fragments completed (raised e) final_filename s = (err reconstruction_error, s)
  merge_fragments completed (found fragments) final_filename s =
      merge_found (merge_configs (range_map_from [] completed) fragments) final_filename s

  abbrev pub reconstruct_completed :
      List ChunkDownloadStats → Text → Option ℕ → storage.State → Result Text × storage.State
  reconstruct_completed [] final_filename total_file_size s = (err reconstruction_error, s)
  reconstruct_completed (c ∷ cs) final_filename total_file_size s =
      merge_fragments (c ∷ cs)
        (calculate_optimal_coverage (map (λ st. st.range) (c ∷ cs)) total_file_size) final_filename
        s

  unfoldable pub reconstruct_file :
      List ChunkDownloadStats → Text → Option ℕ → storage.State → Result Text × storage.State
  reconstruct_file stats_list final_filename total_file_size s =
      reconstruct_completed (completed_stats stats_list) final_filename total_file_size s
