-- ===== src/Transfer/Tasks.antt =====
-- The tasks of chunks in small steps: each opens its file, writes the pieces that its stream yields,
-- one at a time, and ends. The event loop runs the next step of whichever task is ready.
use sdownload.Prelude.{ℕ, ◌≡◌, Option, none, some, List, [], ◌∷◌, ◌++◌, length}
use sdownload.Models.Text.{Text}
use sdownload.Models.Range.{ChunkRange}
use sdownload.Exceptions.{Exc, Result, ok, err, map_os_error}
use sdownload.Storage.Protocol.{Bytes, Stream, put}
use sdownload.Stats.{ChunkDownloadStats, downloading, add_by, update_chunk}
use sdownload.Chunks.Download.{after_save}

-- Where a task stands: before its file is open, with the pieces that are not written yet and how the
-- stream ends, or at its end.
pub data Phase : Type 0 where
  waiting : Stream → Phase
  writing : List Bytes → Option Exc → Phase
  ended : Result ChunkRange → Phase

pub record Task : Type 0 where
  pub stats : ChunkDownloadStats
  pub phase : Phase

abbrev pub Contents : Type 0
Contents = Text → Option Bytes

-- How `save_binary_data` ends after its last piece.
abbrev pub save_result : Option Exc → Result (Unit {0})
save_result none = ok tt
save_result (some e) = err (map_os_error e)

abbrev pub begun : ChunkDownloadStats → Stream → Task
begun stats stream = record {
  stats = record stats { status = downloading };
  phase = writing stream.pieces stream.failure;
}

abbrev pub wrote : ChunkDownloadStats → Bytes → List Bytes → Option Exc → Task
wrote stats piece pieces failure = record {
  stats = (add_by stats.adder (length piece) stats).0;
  phase = writing pieces failure;
}

abbrev pub finished : ChunkDownloadStats → Option Exc → ℕ → Task
finished stats failure now = record {
  stats = update_chunk now (after_save stats (save_result failure)).1;
  phase = ended (after_save stats (save_result failure)).0;
}

-- One step of a task, and what it does to the files.
pub data TaskStep : Task → Contents → Task → Contents → Type 0 where
  opens :
      (stats : ChunkDownloadStats) (stream : Stream) (files : Contents)
      → TaskStep
          (record { stats = stats; phase = waiting stream })
          files
          (begun stats stream)
          (put stats.chunk_file_name (some []) files)
  writes :
      (stats : ChunkDownloadStats) (piece : Bytes) (pieces : List Bytes) (failure : Option Exc)
      (files : Contents) (content : Bytes)
      → files stats.chunk_file_name ≡ some content
      → TaskStep
          (record { stats = stats; phase = writing (piece ∷ pieces) failure })
          files
          (wrote stats piece pieces failure)
          (put stats.chunk_file_name (some (content ++ piece)) files)
  ends :
      (stats : ChunkDownloadStats) (failure : Option Exc) (files : Contents) (now : ℕ)
      → TaskStep
          (record { stats = stats; phase = writing [] failure })
          files
          (finished stats failure now)
          files

-- A step of one of the tasks.
pub data Step : List Task → Contents → List Task → Contents → Type 0 where
  here :
      (t t1 : Task) (tasks : List Task) (files files1 : Contents)
      → TaskStep t files t1 files1
      → Step (t ∷ tasks) files (t1 ∷ tasks) files1
  there :
      (t : Task) (tasks tasks1 : List Task) (files files1 : Contents)
      → Step tasks files tasks1 files1
      → Step (t ∷ tasks) files (t ∷ tasks1) files1

-- Steps in any order.
pub data Steps : List Task → Contents → List Task → Contents → Type 0 where
  stays : (tasks : List Task) (files : Contents) → Steps tasks files tasks files
  step :
      (tasks tasks1 tasks2 : List Task) (files files1 files2 : Contents)
      → Step tasks files tasks1 files1
      → Steps tasks1 files1 tasks2 files2
      → Steps tasks files tasks2 files2
