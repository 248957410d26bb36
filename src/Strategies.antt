-- ===== src/Strategies.antt =====
-- services/downloader_manager/strategies: which chunks a download starts, and when.
pub mod Sequential
pub mod Multi
use sdownload.Prelude.{
  ℕ, ◌+◌, ◌*◌, ◌/◌, max, Bool, true, false, ◌||◌, Option, none, some, List, [], ◌∷◌, ltb, ◌==◌,
  if◌then◌else◌, not,
}
use sdownload.Prelude.Int.{ℤ, pos, pos_part, leb_ℤ}
use sdownload.Models.Range.{ChunkRange}
use sdownload.Exceptions.{Result, ok, err, zero_division_error}

-- `cache`, where `calculate_ranges` reads no list as an empty one.
abbrev pub cached : Option (List ChunkRange) → List ChunkRange
cached none = []
cached (some cache) = cache

abbrev pub limit_size_per_chunk : ℕ
limit_size_per_chunk = 2 * 1024 * 1024

-- How many parts a file of `file_size` bytes is cut into: fewer than `max_conn` if they would be
-- smaller than 2 MB.
abbrev pub parts_for : ℕ → ℕ → ℕ
parts_for max_conn file_size =
    if ltb (file_size / max_conn) limit_size_per_chunk
    then max 1 (file_size / limit_size_per_chunk)
    else max_conn
