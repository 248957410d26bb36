-- ===== src/Tests.antt =====
-- Runs of the theorems on small downloads: a source of ten bytes, in two chunks.
pub mod Downloads
pub mod Files
pub mod Chunks
pub mod Starts
pub mod Saves
pub mod Manager
pub mod Web
pub mod Transfers
pub mod Orders
use sdownload.Prelude.{
  ℕ, ◌≡◌, ◌≢◌, ◌<◌, ◌≤◌, ◌+◌, ◌-◌, ◌*◌, ◌%◌, ◌++◌, ◌⊎◌, ◌↔◌, refl, sym, ap, ◌∙◌, Bool, true, false,
  Option, none, some, List, [], ◌∷◌, inl, inr, In, map, take, drop, length, concat, arith,
  if◌then◌else◌,
}
use sdownload.Prelude.Int.{ℤ, pos, negsuc}
use sdownload.Models.Text.{Text, codes}
use sdownload.Models.Range.{ChunkRange, range_str, contains_range, contains_offset}
use sdownload.Models.Range.Contains.{IsSubset, contains_range_iff}
use sdownload.Ranges.Split.{calculate_ranges, covers, chunk_target}
use sdownload.Ranges.Split.Cover.{calculate_ranges-covers, calculate_ranges-keeps_cache}
use sdownload.Ranges.Split.Tiling.{Tiles, calculate_ranges-Tiles}
use sdownload.Ranges.Split.Count.{length-calculate_ranges, calculate_ranges_exceeds}

abbrev front_range : ChunkRange
front_range = record { start = 0; end = some 5 }

abbrev back_range : ChunkRange
back_range = record { start = 4; end = some 9 }

calculate_ranges-Tiles_example : Tiles 10 0 (calculate_ranges 10 3 (back_range ∷ []))
calculate_ranges-Tiles_example =
    calculate_ranges-Tiles 10 3 (back_range ∷ [])
      (omega arith, omega arith, omega arith, omega arith)
