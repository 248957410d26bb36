-- ===== src/Strategies/Multi/Starts.antt =====
-- What `MultiChunkDownloadStrategy` starts.
use sdownload.Prelude.{ℕ, ◌<◌, ◌≡◌, true, false, List, arith, min}
use sdownload.Prelude.Int.{pos}
use sdownload.Models.Range.{ChunkRange}
use sdownload.Models.Action.{starts}
use sdownload.Ranges.Split.{calculate_ranges, covers}
use sdownload.Ranges.Split.Cover.{calculate_ranges-covers}
use sdownload.Strategies.{cached}
use sdownload.Strategies.Multi.{MultiChunkStrategy, on_start}

on_start-eq :
    (file_size slots : ℕ) (self : MultiChunkStrategy)
    → 0 < slots
    → 0 < self.target_qt_conn
    → on_start (pos file_size) false (pos slots) self
      ≡ starts (calculate_ranges file_size (min self.target_qt_conn slots) (cached self.cache))
unfolding on_start
on_start-eq file_size slots self h t = ground arith

-- At its start, with a connection to use and a limit above 0, the strategy starts ranges that hold
-- every byte of the file.
pub on_start-covers :
    (file_size slots : ℕ) (self : MultiChunkStrategy)
    → 0 < slots
    → 0 < self.target_qt_conn
    → (b : ℕ) → b < file_size
    → (ranges : List ChunkRange) × (on_start (pos file_size) false (pos slots) self ≡ starts ranges)
      × (covers ranges b ≡ true)
on_start-covers file_size slots self h t b l = (
  calculate_ranges file_size (min self.target_qt_conn slots) (cached self.cache),
  on_start-eq file_size slots self h t,
  calculate_ranges-covers file_size (min self.target_qt_conn slots) (cached self.cache) b l,
)
