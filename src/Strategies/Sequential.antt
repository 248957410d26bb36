-- ===== src/Strategies/Sequential.antt =====
-- strategies/sequential_chunk_strategy.py: `SequentialChunkStrategy` plans all ranges at its start and
-- issues them one by one as connections become available.
pub mod Issues
pub mod Download
use sdownload.Prelude.{
  ℕ, zero, suc, min, Bool, true, false, not, ◌||◌, Option, none, some, List, [], ◌∷◌, length, ◌==◌,
  if◌then◌else◌,
}
use sdownload.Prelude.Int.{ℤ, pos, pos_part, leb_ℤ}
use sdownload.Models.Range.{ChunkRange}
use sdownload.Models.Action.{StrategyAction, start_chunk}
use sdownload.Exceptions.{Result, ok, err, zero_division_error}
use sdownload.Ranges.Split.{calculate_ranges}
use sdownload.Strategies.{cached, parts_for}

pub record SequentialStrategy : Type 0 where
  pub max_conn : ℕ
  pub use_chunked_download : Bool
  pub cache : Option (List ChunkRange)
  pub pending_ranges : List ChunkRange
  pub initialized : Bool

-- `_calc_initial_ranges`
pub calc_initial_ranges : ℤ → SequentialStrategy → Result (List ChunkRange)
calc_initial_ranges file_size self =
    if not self.use_chunked_download || leb_ℤ file_size (pos 0)
    then ok (record { start = 0; end = none } ∷ [])
    else if self.max_conn == 0
    then err zero_division_error
    else ok (
        calculate_ranges (pos_part file_size) (parts_for self.max_conn (pos_part file_size))
          (cached self.cache))

-- The loop that takes `slots` ranges from the front: the actions, and the ranges left.
abbrev pub pop_ranges : ℕ → List ChunkRange → List StrategyAction × List ChunkRange
pop_ranges zero ranges = ([], ranges)
pop_ranges (suc slots) [] = ([], [])
pop_ranges (suc slots) (rng ∷ ranges) =
    let (actions, left) = pop_ranges slots ranges in (start_chunk rng none ∷ actions, left)

-- `_issue_pending`
pub issue_pending : ℤ → SequentialStrategy → List StrategyAction × SequentialStrategy
issue_pending available_slots self =
    if leb_ℤ available_slots (pos 0) || length self.pending_ranges == 0
    then ([], self)
    else let (actions, left) =
        pop_ranges (min (pos_part available_slots) (length self.pending_ranges))
          self.pending_ranges in
      (actions, record self { pending_ranges = left })

-- The strategy with its ranges planned.
abbrev pub planned : ℤ → SequentialStrategy → Result SequentialStrategy
unfolding calc_initial_ranges
planned file_size self =
    if self.initialized then ok self else elim (calc_initial_ranges file_size self) [
      | ok ranges ↦ ok (record self { pending_ranges = ranges; initialized = true })
      | err e ↦ err e
    ]

abbrev pub issued_by :
    ℤ
    → SequentialStrategy
    → Result SequentialStrategy
    → Result (List StrategyAction) × SequentialStrategy
unfolding issue_pending
issued_by available_slots self (err e) = (err e, self)
issued_by available_slots self (ok ready) =
    let (actions, self') = issue_pending available_slots ready in (ok actions, self')

-- `on_start`; of the chunks' stats it reads whether there are any.
pub on_start : ℤ → Bool → ℤ → SequentialStrategy → Result (List StrategyAction) × SequentialStrategy
on_start file_size has_chunks available_slots self =
    if has_chunks then (ok [], self) else issued_by available_slots self (planned file_size self)

pub on_update : ℤ → SequentialStrategy → List StrategyAction × SequentialStrategy
unfolding issue_pending
on_update available_slots self = issue_pending available_slots self

pub on_end : SequentialStrategy → SequentialStrategy
on_end self = record self { pending_ranges = []; initialized = false }
