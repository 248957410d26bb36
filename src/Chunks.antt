-- ===== src/Chunks.antt =====
-- services/downloader_manager/chunk_utils: the functions that the chunk manager runs.
pub mod Download
pub mod Supervised
pub mod Monitor
pub mod Names
pub mod Cleanup
pub mod Cleans
pub mod Succession
pub mod Succeeds
pub mod Settles
pub mod Reconstruct
pub mod Slices
pub mod Restores
pub mod Outcome
use sdownload.Prelude.{ℕ, Bool, true, false, Option, none, some, ◌++◌, if◌then◌else◌, ◌≡◌}
use sdownload.Prelude.Int.{ℤ, pos, ◌-ℤ◌, ◌+ℤ◌, eqb_ℤ}
use sdownload.Models.Text.{Text, codes}
use sdownload.Models.Range.{ChunkRange, range_str}
use sdownload.Stats.{ChunkDownloadStats}

-- `format_chunk_file_name`
unfoldable pub format_chunk_file_name : ChunkRange → Text → Text
unfolding range_str
format_chunk_file_name chunk_range file_name =
    range_str chunk_range ++ codes "_" ++ file_name ++ codes ".sdownload"

-- `get_effective_range_info`
unfoldable pub get_effective_range_info : ChunkRange → Option ℤ → Option ℤ × Option ℤ
get_effective_range_info chunk_range total_file_size = elim chunk_range.end [
  | some e ↦ (some (pos e), some (pos e -ℤ pos chunk_range.start +ℤ pos 1))
  | none ↦ elim total_file_size [
    | some n ↦ (some (n -ℤ pos 1), some (n -ℤ pos 1 -ℤ pos chunk_range.start +ℤ pos 1))
    | none ↦ (none, none)
  ]
]

abbrev pub is_size : ℕ → Option ℤ → Bool
is_size bytes none = false
is_size bytes (some size) = eqb_ℤ (pos bytes) size

-- What `stop_predecessor` does to the task of the predecessor, `some done` if there is one: it is
-- cancelled or not.
unfoldable pub stop_predecessor : Option Bool → ChunkDownloadStats → Bool
stop_predecessor none stats_a = false
stop_predecessor (some true) stats_a = false
stop_predecessor (some false) stats_a =
    if is_size stats_a.bytes_downloaded stats_a.file_size then false else true
