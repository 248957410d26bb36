-- ===== src/Strategies/Multi.antt =====
-- strategies/multi_chunk_strategy.py: `MultiChunkDownloadStrategy` starts all its chunks at once.
pub mod Starts
use sdownload.Exceptions.{Result, ok, err, zero_division_error}
use sdownload.Prelude.{
  none, not, ◌∷◌, ◌*◌, ◌/◌, max, ltb, false, ℕ, min, Bool, ◌||◌, Option, List, [], ◌==◌,
  if◌then◌else◌,
}
use sdownload.Prelude.Int.{ℤ, pos, pos_part, leb_ℤ}
use sdownload.Models.Range.{ChunkRange}
use sdownload.Models.Action.{StrategyAction, starts}
use sdownload.Ranges.Split.{calculate_ranges}
use sdownload.Strategies.{cached, limit_size_per_chunk}

pub record MultiChunkStrategy : Type 0 where
  pub max_conn : ℕ
  pub target_qt_conn : ℕ
  pub use_chunked_download : Bool
  pub cache : Option (List ChunkRange)
  pub initialized : Bool

-- `__init__`
abbrev pub new_multi_chunk : ℕ → Bool → Option (List ChunkRange) → MultiChunkStrategy
new_multi_chunk max_conn use_chunked_download cache = record {
  max_conn = max_conn;
  target_qt_conn = max_conn;
  use_chunked_download = use_chunked_download;
  cache = cache;
  initialized = false;
}

-- `on_start`; of the chunks' stats it reads whether there are any. A file size below 0 has no ranges.
pub on_start : ℤ → Bool → ℤ → MultiChunkStrategy → List StrategyAction
on_start file_size has_chunks available_slots self =
    if has_chunks || leb_ℤ available_slots (pos 0)
    then []
    else let actual_conn_target = min self.target_qt_conn (pos_part available_slots) in
      if actual_conn_target == 0
      then []
      else starts (calculate_ranges (pos_part file_size) actual_conn_target (cached self.cache))

pub on_update : ℤ → MultiChunkStrategy → List StrategyAction
on_update available_slots self = []

-- The strategy with fewer connections for a small file.
abbrev pub with_target : ℕ → MultiChunkStrategy → MultiChunkStrategy
with_target file_size self =
    if ltb (file_size / self.max_conn) limit_size_per_chunk
    then record self { target_qt_conn = max 1 (file_size / limit_size_per_chunk) }
    else self

abbrev pub target_ranges : ℕ → MultiChunkStrategy → Result (List ChunkRange) × MultiChunkStrategy
target_ranges file_size self =
    (ok (calculate_ranges file_size self.target_qt_conn (cached self.cache)), self)

-- `_calc_initial_ranges`; a file size below 0 stands as 0.
unfoldable pub calc_multi_ranges :
    ℕ → MultiChunkStrategy → Result (List ChunkRange) × MultiChunkStrategy
calc_multi_ranges file_size self =
    if not self.use_chunked_download || file_size == 0
    then (ok (record { start = 0; end = none } ∷ []), self)
    else if self.max_conn == 0
    then (err zero_division_error, self)
    else target_ranges file_size (with_target file_size self)
