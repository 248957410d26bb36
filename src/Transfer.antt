-- ===== src/Transfer.antt =====
-- One download from the server to its final file: services/downloader_manager/chunk_manager.py and
-- chunk_utils/downloader.py over http_client/httpx_downloader.py, with the tasks of the chunks one
-- after another.
pub mod Fetches
pub mod Restores
pub mod Tasks
pub mod Interleaves
pub mod Orders
use sdownload.Prelude.{ℕ, Option, none, some, List, [], ◌∷◌}
use sdownload.Prelude.Int.{ℤ, pos}
use sdownload.Models.Text.{Text}
use sdownload.Models.Range.{ChunkRange}
use sdownload.Exceptions.{Result}
use sdownload.Storage.Protocol.{FileStorage, Stream}
use sdownload.Stats.{ChunkDownloadStats}
use sdownload.Chunks.Download.{download_chunk_supervised}
use sdownload.HttpClient.Downloader.{end_pos, ByteResponse, download_chunk}

-- `downloader.download_chunk(download_url, stats.range.start, stats.range.end)`
abbrev pub raw_stream : (Option Text → Result ByteResponse) → ChunkRange → Stream
raw_stream server range = download_chunk server (pos range.start) (end_pos range.end) none

module _ (storage : FileStorage) (server : Option Text → Result ByteResponse) (now : ℕ) where
  -- The task of one chunk; a throttler passes the pieces as they are.
  abbrev pub fetch :
      ChunkDownloadStats → storage.State → Result ChunkRange × ChunkDownloadStats × storage.State
  fetch stats s = download_chunk_supervised storage (raw_stream server stats.range) now stats s

  -- The tasks of the chunks, with the stats that they leave.
  abbrev pub fetch_all :
      List ChunkDownloadStats → storage.State → List ChunkDownloadStats × storage.State
  fetch_all [] s = ([], s)
  fetch_all (stats ∷ stats_list) s =
      let (r, after, s1) = fetch stats s in
      let (others, s2) = fetch_all stats_list s1 in (after ∷ others, s2)
