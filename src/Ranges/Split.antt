-- ===== src/Ranges/Split.antt =====
-- `calculate_ranges` of utils/range_operations.py.
pub mod Cover
pub mod Tiling
pub mod Count
use sdownload.Prelude.{
  ℕ, zero, suc, ◌+◌, ◌-◌, ◌/◌, max, Bool, false, ◌||◌, Option, none, some, List, [], ◌∷◌, ◌++◌, leb,
  ltb, ◌==◌, if◌then◌else◌,
}
use sdownload.Prelude.Sort.{sorted}
use sdownload.Models.Range.{ChunkRange, contains_offset}

-- The `while temp_start <= gap_end` loops. They differ in the end of the last range only: the gap
-- before a cached range closes at `gap_end`, the one at the end of the file stays open.
unfoldable pub fill_gap : ℕ → ℕ → Option ℕ → ℕ → ℕ → List ChunkRange
fill_gap target_chunk_size gap_end last_end zero temp_start = []
fill_gap target_chunk_size gap_end last_end (suc fuel) temp_start =
    let temp_end = temp_start + target_chunk_size - 1 in
    let more = fill_gap target_chunk_size gap_end last_end fuel (temp_end + 1) in
    if leb temp_start gap_end
    then if leb (gap_end - temp_start + 1) target_chunk_size
      then record { start = temp_start; end = last_end } ∷ []
      else record { start = temp_start; end = some temp_end } ∷ more
    else []

-- `current_pos` after a cached range.
abbrev pub after_cached : ℕ → ChunkRange → ℕ
after_cached file_size c = elim c.end [ none ↦ file_size | some e ↦ e + 1 ]

-- The gap between the current position and a cached range.
abbrev pub gap_before : ℕ → ChunkRange → ℕ → List ChunkRange
gap_before target_chunk_size c current_pos =
    if ltb current_pos c.start
    then fill_gap target_chunk_size (c.start - 1) (some (c.start - 1)) c.start current_pos
    else []

-- The `for` loop over the sorted cache, and the gap behind it.
unfoldable pub fill_around : ℕ → ℕ → List ChunkRange → ℕ → List ChunkRange
fill_around file_size target_chunk_size [] current_pos =
    if ltb current_pos file_size
    then fill_gap target_chunk_size (file_size - 1) none file_size current_pos
    else []
fill_around file_size target_chunk_size (c ∷ cs) current_pos =
    gap_before target_chunk_size c current_pos
    ++ c ∷ fill_around file_size target_chunk_size cs (after_cached file_size c)

abbrev pub chunk_target : ℕ → ℕ → ℕ
chunk_target file_size num_parts = max 1 (file_size / (if num_parts == 0 then 1 else num_parts))

unfoldable pub calculate_ranges : ℕ → ℕ → List ChunkRange → List ChunkRange
unfolding fill_around
calculate_ranges file_size num_parts cache =
    fill_around file_size (chunk_target file_size num_parts) (sorted (λ x. x.start) cache) 0

-- Some range of the list holds the offset.
abbrev pub covers : List ChunkRange → ℕ → Bool
covers [] b = false
covers (r ∷ rs) b = contains_offset r b || covers rs b
