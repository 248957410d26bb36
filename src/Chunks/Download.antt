-- ===== src/Chunks/Download.antt =====
-- chunk_utils/downloader.py: one chunk is downloaded into its file. What the downloader yields,
-- through the throttler, is a stream; a cancelled task is a stream that ends in `CancelledError`.
use sdownload.Prelude.{
  ℕ, Bool, false, ◌&&◌, not, ◌==◌, leb, Option, none, some, map, length, if◌then◌else◌,
}
use sdownload.Prelude.Int.{ℤ, pos, eqb_ℤ}
use sdownload.Models.Range.{ChunkRange}
use sdownload.Exceptions.{Result, ok, err, cancelled_error, integrity_error}
use sdownload.Storage.Protocol.{Bytes, Stream, FileStorage}
use sdownload.Stats.{
  ChunkDownloadStats, DownloadStatus, downloading, completed, deprecated, cancelled, set_error,
  update_chunk,
}
use sdownload.Stats.Observer.{add_pieces}

-- `stats.file_size is not None and stats.bytes_downloaded != stats.file_size`
abbrev pub is_wrong_size : ℕ → Option ℤ → Bool
is_wrong_size bytes none = false
is_wrong_size bytes (some size) = not (eqb_ℤ (pos bytes) size)

-- The end of the `try` block, once the stream is saved.
abbrev pub check_size : ChunkDownloadStats → Result ChunkRange × ChunkDownloadStats
check_size stats =
    if is_wrong_size stats.bytes_downloaded stats.file_size
    then (err integrity_error, set_error integrity_error stats)
    else (ok stats.range, record stats { status = completed })

-- The status of a download that was cancelled.
abbrev pub cancel_status : ChunkDownloadStats → DownloadStatus
cancel_status stats =
    if not (stats.limit_qt_bytes == 0) && leb stats.limit_qt_bytes stats.bytes_downloaded
    then deprecated
    else cancelled

abbrev pub after_save :
    ChunkDownloadStats → Result (Unit {0}) → Result ChunkRange × ChunkDownloadStats
after_save stats (ok u) = check_size stats
after_save stats (err cancelled_error) =
    (err cancelled_error, record stats { status = cancel_status stats })
after_save stats (err e) = (err e, set_error e stats)

-- `stats.add_qt_bytes_downloaded(len(data))` for all that the stream yields.
abbrev pub counted : Stream → ChunkDownloadStats → ChunkDownloadStats
counted stream stats =
    (add_pieces (map (λ (b : Bytes). length b) stream.pieces)
      (record stats { status = downloading })).0

module _ (storage : FileStorage) where
  -- The download with its `finally` block at the time `now`.
  unfoldable pub download_chunk_supervised :
      Stream
      → ℕ
      → ChunkDownloadStats
      → storage.State
      → Result ChunkRange × ChunkDownloadStats × storage.State
  download_chunk_supervised stream now stats s =
      let (saved, s1) = storage.save_binary_data stats.chunk_file_name stream s in
      let (r, stats1) = after_save (counted stream stats) saved in (r, update_chunk now stats1, s1)
