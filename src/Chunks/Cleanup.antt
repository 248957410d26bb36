-- ===== src/Chunks/Cleanup.antt =====
-- chunk_utils/cleanup.py: the temporary files are deleted.
use sdownload.Prelude.{List, [], ◌∷◌, map, filter}
use sdownload.Models.Text.{Text}
use sdownload.Exceptions.{Result, ok, err}
use sdownload.Storage.Protocol.{FileStorage, is_listed}
use sdownload.Stats.{ChunkDownloadStats}

-- The first exception of a `gather`.
abbrev pub first_error : Result (Unit {0}) → Result (Unit {0}) → Result (Unit {0})
first_error (ok u) later = later
first_error (err e) later = err e

module _ (storage : FileStorage) where
  -- `asyncio.gather(*delete_tasks)`: every deletion runs, in this order.
  abbrev pub delete_all : List Text → storage.State → Result (Unit {0}) × storage.State
  delete_all [] s = (ok tt, s)
  delete_all (key ∷ names) s =
      let (r, s1) = storage.delete_data key s in
      let (later, s2) = delete_all names s1 in (first_error r later, s2)

  unfoldable pub cleanup_temp_files :
      List ChunkDownloadStats → storage.State → Result (Unit {0}) × storage.State
  cleanup_temp_files chunks_stats s =
      delete_all
        (filter (λ key. is_listed key (storage.list_data s))
          (map (λ c. c.chunk_file_name) chunks_stats))
        s
