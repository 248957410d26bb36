-- ===== src/Tests/Downloads.antt =====
-- Downloads of a source of ten bytes in two chunks that overlap, into local files.
use sdownload.Prelude.{◌≡◌, ◌≢◌, refl, none, some, List, [], ◌∷◌, inl, inr, take, drop, arith}
use sdownload.Models.Text.{decimal, Text, codes, text_eq}
use sdownload.Models.Range.{ChunkRange, ChunkFragment}
use sdownload.Exceptions.{ok}
use sdownload.Ranges.Coverage.{calculate_optimal_coverage, found, raised, out_of_fuel}
use sdownload.Ranges.Coverage.Path.{Reads}
use sdownload.Ranges.Coverage.Chain.{Chain, hop, at_end}
use sdownload.Ranges.Coverage.Returned.{calculate_optimal_coverage-Reads}
use sdownload.Ranges.Coverage.Decides.{
  calculate_optimal_coverage_complete, calculate_optimal_coverage-ends,
}
use sdownload.Storage.Protocol.{Bytes, FileStorage, put}
use sdownload.Storage.Local.{Files}
use sdownload.Storage.Local.Laws.{local_storage, content}
use sdownload.Stats.{ChunkDownloadStats, new_stats, completed}
use sdownload.Chunks.{format_chunk_file_name}
use sdownload.Chunks.Reconstruct.{reconstruct_file}
use sdownload.Chunks.Restores.{IsStored, reconstruct_file-restores}

abbrev pub source : Bytes
source = 10 ∷ 11 ∷ 12 ∷ 13 ∷ 14 ∷ 15 ∷ 16 ∷ 17 ∷ 18 ∷ 19 ∷ []

abbrev pub front : ChunkRange
front = record { start = 0; end = some 5 }

abbrev pub back : ChunkRange
back = record { start = 4; end = some 9 }

abbrev ranges : List ChunkRange
ranges = front ∷ back ∷ []

abbrev pub storage : FileStorage
storage = local_storage 65536 65536 (omega arith) (omega arith)

abbrev pub file_name : Text
file_name = codes "f"

abbrev pub chunk_stats : ChunkRange → ChunkDownloadStats
chunk_stats r = new_stats (format_chunk_file_name r file_name) r none completed none 0

abbrev pub stats_list : List ChunkDownloadStats
stats_list = chunk_stats front ∷ chunk_stats back ∷ []

abbrev pub files : Files
files =
    (format_chunk_file_name front file_name, take 6 source)
    ∷ (format_chunk_file_name back file_name, drop 4 source)
    ∷ []

pub chain : Chain ranges (some 10) 0
chain =
    hop {q = 4} front (inl refl) refl (omega arith) refl
      (hop {q = 10} back (inr (inl refl)) refl (omega arith) refl (at_end refl))

pub is_stored : IsStored (content files) file_name source stats_list
unfolding format_chunk_file_name decimal
is_stored = ((refl, refl), ((refl, refl), tt))

reconstruct_file-restores_example :
    ((reconstruct_file storage stats_list file_name (some 10) files).0 ≡ ok file_name)
    × ((key : Text)
        → content (reconstruct_file storage stats_list file_name (some 10) files).1 key
          ≡ put file_name (some source) (content files) key)
reconstruct_file-restores_example =
    reconstruct_file-restores storage stats_list file_name (some 10) files source is_stored refl
      refl chain

calculate_optimal_coverage-Reads_example :
    Reads ranges 10 0
      (record { range = front; read_limit_qt_bytes = some 4 }
        ∷ record { range = back; read_limit_qt_bytes = none }
        ∷ [])
      10
unfolding calculate_optimal_coverage
calculate_optimal_coverage-Reads_example =
    calculate_optimal_coverage-Reads ranges (some 10) 10
      (record { range = front; read_limit_qt_bytes = some 4 }
        ∷ record { range = back; read_limit_qt_bytes = none }
        ∷ [])
      refl refl

calculate_optimal_coverage_complete_example :
    (path : List ChunkFragment) × (calculate_optimal_coverage ranges (some 10) ≡ found path)
calculate_optimal_coverage_complete_example =
    calculate_optimal_coverage_complete ranges (some 10) refl chain

calculate_optimal_coverage-ends_example :
    calculate_optimal_coverage ranges none ≢ raised out_of_fuel
calculate_optimal_coverage-ends_example = calculate_optimal_coverage-ends ranges none
