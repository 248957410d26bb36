-- ===== src/Tests/Starts.antt =====
-- The chunks that the strategies start for small files.
use sdownload.Strategies.Sequential
use sdownload.Strategies.Multi
use sdownload.Prelude.{◌≡◌, refl, true, false, none, some, List, [], ◌∷◌, ◌++◌, take, concat, arith}
use sdownload.Strategies.Sequential
use sdownload.Strategies.Multi
use sdownload.Prelude.Int.{pos}
use sdownload.Models.Range.{ChunkRange}
use sdownload.Models.Action.{StrategyAction, starts}
use sdownload.Exceptions.{ok}
use sdownload.Ranges.Split.Tiling.{Tiles}
use sdownload.Strategies.Sequential.{SequentialStrategy}
use sdownload.Strategies.Sequential.Issues.{updates}
use sdownload.Strategies.Sequential.Download.{sequential_download-starts}
use sdownload.Strategies.Multi.{MultiChunkStrategy}

abbrev sequential : SequentialStrategy
sequential = record {
  max_conn = 3;
  use_chunked_download = true;
  cache = none;
  pending_ranges = [];
  initialized = false;
}

abbrev two_left : SequentialStrategy
two_left = record sequential {
  pending_ranges = record { start = 0; end = some 4 } ∷ record { start = 5; end = none } ∷ [];
  initialized = true;
}

sequential_download-starts_example :
    (ranges : List ChunkRange) × (first : List StrategyAction) × Tiles 10 0 ranges
    × ((Sequential.on_start (pos 10) false (pos 1) sequential).0 ≡ ok first)
    × (first
          ++ concat
              (updates (pos 1 ∷ []) (Sequential.on_start (pos 10) false (pos 1) sequential).1).0
        ≡ starts (take 2 ranges))
sequential_download-starts_example =
    sequential_download-starts 10 (pos 1) (pos 1 ∷ []) sequential refl refl (omega arith)
      (omega arith) (omega arith)
