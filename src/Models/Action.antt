-- ===== src/Models/Action.antt =====
-- interfaces/models/chunk_models.py: what a strategy may ask of the chunk manager.
use sdownload.Prelude.{ℕ, Option, none, List, [], ◌∷◌}
use sdownload.Models.Range.{ChunkRange}

pub data StrategyAction : Type 0 where
  start_chunk : ChunkRange → Option ℕ → StrategyAction
  cancel_chunk : ChunkRange → StrategyAction
  resize_chunk : ChunkRange → ChunkRange → Option ℕ → StrategyAction
  set_speed : ChunkRange → Option ℕ → StrategyAction

-- `[StrategyAction.Start(range=r) for r in ranges]`
abbrev pub starts : List ChunkRange → List StrategyAction
starts [] = []
starts (r ∷ ranges) = start_chunk r none ∷ starts ranges
