-- ===== src/Chunks/Succession.antt =====
-- chunk_utils/succession.py: a chunk that was cut short becomes a smaller chunk.
use sdownload.Prelude.{
  Option, Bool, true, false, none, some, ltb, ◌==◌, ◌||◌, ◌&&◌, not, if◌then◌else◌,
}
use sdownload.Prelude.Int.{ℤ, pos, ◌+ℤ◌, ◌-ℤ◌, pos_part}
use sdownload.Models.Range.{ChunkRange}
use sdownload.Exceptions.{
  Exc, Result, ok, err, value_error, chunk_succession_error, cancelled_error, is_cancelled_error,
}
use sdownload.Storage.Protocol.{FileStorage}
use sdownload.Stats.{
  ChunkDownloadStats, DownloadStatus, awaiting_succession, completed, deprecated, cancelled, error,
  set_error, remove_limit_observer,
}

-- What the predecessor's task does once it is cancelled: what its stats become, and the exception that
-- ends it, if there is one.
pub record Stopped : Type 0 where
  pub stats : ChunkDownloadStats → ChunkDownloadStats
  pub failure : Option Exc

-- How the wait for the predecessor's task ends; `task_failed` has an exception that is no
-- CancelledError. In `interrupted` the succession itself is cancelled, and the task is done or stopped.
pub data Waited : Type 0 where
  no_task returned task_cancelled : Waited
  task_failed : Exc → Waited
  interrupted : Option Stopped → Waited

abbrev pub is_awaiting : DownloadStatus → Bool
is_awaiting awaiting_succession = true
is_awaiting _ = false

abbrev pub is_error : DownloadStatus → Bool
is_error error = true
is_error _ = false

-- The last byte of the predecessor's file that the successor keeps.
abbrev pub end_crop : ChunkDownloadStats → ChunkDownloadStats → ℤ
end_crop predecessor successor = elim successor.range.end [
  | some e ↦ pos e -ℤ pos predecessor.range.start
  | none ↦ pos predecessor.bytes_downloaded -ℤ pos 1
]

abbrev pub start_crop : ChunkDownloadStats → ChunkDownloadStats → ℤ
start_crop predecessor successor = pos successor.range.start -ℤ pos predecessor.range.start

-- `except Exception as e`
abbrev pub with_error : Exc → ChunkDownloadStats → ChunkDownloadStats
with_error e successor = if is_error successor.status then successor else set_error e successor

-- The predecessor has fewer bytes than its limit, or none at all.
abbrev pub lacks_data : ChunkDownloadStats → Bool
lacks_data predecessor =
    not (predecessor.limit_qt_bytes == 0)
      && ltb predecessor.bytes_downloaded predecessor.limit_qt_bytes
    || predecessor.bytes_downloaded == 0

module _ (storage : FileStorage) where
  -- The predecessor's and the successor's stats with the storage.
  pub record Both : Type 0 where
    pub predecessor : ChunkDownloadStats
    pub successor : ChunkDownloadStats
    pub files : storage.State

  abbrev pub fails_with : Exc → Both → Result ChunkRange × Both
  fails_with e both = (err e, record both { successor = with_error e both.successor })

  -- The end of `except asyncio.CancelledError`.
  abbrev pub raises_again : Both → Result ChunkRange × Both
  raises_again both =
      (err cancelled_error, record both { predecessor = remove_limit_observer both.predecessor })

  -- `await predecessor_task` in the handler: only a CancelledError is caught there.
  abbrev pub after_stop : Option Exc → Both → Result ChunkRange × Both
  after_stop none both = raises_again both
  after_stop (some e) both = if is_cancelled_error e then raises_again both else (err e, both)

  -- `except asyncio.CancelledError`, with what stops a task that is not done.
  abbrev pub on_cancelled : Option Stopped → Both → Result ChunkRange × Both
  on_cancelled none both =
      raises_again (record both { successor = record both.successor { status = cancelled } })
  on_cancelled (some stopped) both = after_stop stopped.failure (record both {
    predecessor = stopped.stats both.predecessor;
    successor = record both.successor { status = cancelled };
  })

  -- An exception of the storage: the predecessor's task is done then.
  abbrev pub handles : Exc → Both → Result ChunkRange × Both
  handles e both = if is_cancelled_error e then on_cancelled none both else fails_with e both

  abbrev pub completes : Both → Result ChunkRange × Both
  completes both = (
    ok both.successor.range,
    record both {
      predecessor = record both.predecessor { status = deprecated };
      successor = record both.successor {
        bytes_downloaded = pos_part (
            end_crop both.predecessor both.successor
            -ℤ start_crop both.predecessor both.successor
            +ℤ pos 1);
        status = completed;
      };
    },
  )

  abbrev pub after_move : Both → Result (Unit {0}) × storage.State → Result ChunkRange × Both
  after_move both (ok u, files) = completes (record both { files = files })
  after_move both (err e, files) = handles e (record both { files = files })

  abbrev pub after_crop : Both → Result (Unit {0}) × storage.State → Result ChunkRange × Both
  after_crop both (ok u, files) =
      after_move both
        (storage.move_data both.predecessor.chunk_file_name both.successor.chunk_file_name files)
  after_crop both (err e, files) = handles e (record both { files = files })

  -- From the end of the wait: the two checks of the bytes, then the crop and the move.
  abbrev pub succeed : Both → Result ChunkRange × Both
  succeed both =
      if lacks_data both.predecessor
      then fails_with chunk_succession_error both
      else after_crop both (
          storage.crop_file both.predecessor.chunk_file_name
            (start_crop both.predecessor both.successor) (end_crop both.predecessor both.successor)
            both.files)

  abbrev pub after_wait : Waited → Both → Result ChunkRange × Both
  after_wait no_task both = succeed both
  after_wait returned both = succeed both
  after_wait task_cancelled both = succeed both
  after_wait (task_failed e) both = fails_with chunk_succession_error both
  after_wait (interrupted task) both = on_cancelled task both

  unfoldable pub run_chunk_succession : Waited → Both → Result ChunkRange × Both
  run_chunk_succession waited both =
      if is_awaiting both.successor.status
      then after_wait waited both
      else fails_with value_error both
