-- ===== src/Manager/Streams.antt =====
-- The beginning, the stream and the end of a `ChunkManager`'s life. What the running tasks do to the
-- stats while the manager waits, and which of them are done then, are arguments.
use sdownload.Prelude.{ℕ, zero, suc, Bool, false, Option, none, some, List, [], ◌∷◌, ◌++◌}
use sdownload.Prelude.Int.{ℤ}
use sdownload.Prelude.Dict.{Dict, insert}
use sdownload.Models.Text.{Text}
use sdownload.Models.Range.{ChunkRange, range_eq}
use sdownload.Exceptions.{Result, ok, err}
use sdownload.Storage.Protocol.{FileStorage}
use sdownload.Stats.{ChunkDownloadStats}
use sdownload.Manager.{ChunkTask, ChunkManager, wait_for_chunks}
use sdownload.Manager.Stops.{StatsDict, cleanup}

abbrev pub recovered_into : List ChunkDownloadStats → StatsDict → StatsDict
recovered_into [] stats = stats
recovered_into (st ∷ recovered) stats = recovered_into recovered (insert st.range st stats)

-- `__init__`
abbrev pub new_chunk_manager : Text → Option ℤ → List ChunkDownloadStats → ChunkManager
new_chunk_manager file_name file_size recovered_stats = record {
  file_name = file_name;
  file_size = file_size;
  chunks_stats = recovered_into recovered_stats [];
  chunks_tasks = [];
  monitor_done = none;
  cleaned_up = false;
}

-- `__aexit__`, whatever the block raised.
abbrev pub exit_context :
    (StatsDict → StatsDict)
    → (storage : FileStorage) → ChunkManager
    → storage.State
    → Result (Unit {0}) × ChunkManager × storage.State
exit_context settle storage self s = cleanup settle storage false self s

-- What a stream has yielded, how it ended, and its manager then.
abbrev pub Streamed : Type 0
Streamed = List ChunkDownloadStats × (Result (Unit {0}) × ChunkManager)

-- The batch that is yielded before the rest of the stream.
abbrev pub before_rest : List ChunkDownloadStats → Option Streamed → Option Streamed
before_rest batch none = none
before_rest batch (some (rest, ended)) = some (batch ++ rest, ended)

module _ (settle : ℕ → StatsDict → StatsDict)
    (finished : ℕ → ChunkManager → ChunkRange → Bool) where
  -- The manager when the k-th wait returns.
  abbrev pub waited : ℕ → ChunkManager → ChunkManager
  waited k self = record self { chunks_stats = settle k self.chunks_stats }

  abbrev pub wait_first : ℕ → ChunkManager → Result (List ChunkDownloadStats) × ChunkManager
  wait_first k self = wait_for_chunks (finished k self) (waited k self)

  -- `as_stream` from the k-th wait on; `none` where the fuel runs out.
  unfoldable pub as_stream : ℕ → ℕ → Dict ChunkRange ChunkTask → ChunkManager → Option Streamed
  as_stream zero k tasks self = none
  as_stream (suc fuel) k [] self = some ([], (ok tt, self))
  as_stream (suc fuel) k (t ∷ ts) self =
      let batch = (wait_first k self).0 in
      let next = (wait_first k self).1 in
      let rest = as_stream fuel (suc k) next.chunks_tasks next in
      elim batch [ err e ↦ some ([], (err e, next)) | ok sts ↦ before_rest sts rest ]
