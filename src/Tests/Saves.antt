-- ===== src/Tests/Saves.antt =====
-- A download of one chunk, and the state of two chunks that is saved and loaded again.
use sdownload.Prelude.{◌≡◌, refl, Option, none, some, List, [], ◌∷◌, take, drop, false}
use sdownload.Prelude.Int.{pos}
use sdownload.Models.Text.{Text, codes}
use sdownload.Exceptions.{ok}
use sdownload.Storage.Protocol.{Bytes, Stream, put}
use sdownload.Storage.Local.{Files, save_binary_data}
use sdownload.Storage.Local.Laws.{content}
use sdownload.Stats.{ChunkDownloadStats, new_stats, pending, completed}
use sdownload.Chunks.Download.{is_wrong_size, download_chunk_supervised}
use sdownload.Chunks.Supervised.{download_chunk_supervised-completes, download_chunk_supervised-ok}
use sdownload.Recovery.{RecoveryState}
use sdownload.Tests.Downloads.{source, storage, front}

abbrev stream : Stream
stream = record { pieces = take 4 source ∷ take 2 (drop 4 source) ∷ []; failure = none }

abbrev chunk : ChunkDownloadStats
chunk = new_stats (codes "a") front (some (pos 6)) pending none 0

download_chunk_supervised-completes_example :
    let (r, after, s1) = download_chunk_supervised storage stream 5 chunk [] in
    (r ≡ ok front)
    × (after.status ≡ completed)
    × (after.bytes_downloaded ≡ 6)
    × ((key : Text) → content s1 key ≡ put (codes "a") (some (take 6 source)) (content []) key)
download_chunk_supervised-completes_example =
    download_chunk_supervised-completes storage stream 5 chunk [] refl refl

download_chunk_supervised-ok_example :
    let (_, after, s1) = download_chunk_supervised storage stream 5 chunk [] in
    (after.status ≡ completed)
    × (is_wrong_size after.bytes_downloaded after.file_size ≡ false)
    × (content s1 (codes "a") ≡ some (take 6 source))
unfolding download_chunk_supervised save_binary_data
download_chunk_supervised-ok_example =
    download_chunk_supervised-ok storage stream 5 chunk [] front refl

abbrev saved_stats : List ChunkDownloadStats
saved_stats =
    record (new_stats (codes "a") front none completed none 0) { bytes_downloaded = 6 }
    ∷ record (new_stats (codes "b") front none pending none 0) { bytes_downloaded = 2 }
    ∷ []

abbrev on_disk : Files
on_disk = (codes "a", take 6 source) ∷ (codes "b", take 2 source) ∷ []

abbrev saved_state : RecoveryState
saved_state = record {
  file_id = codes "id";
  file_size = 10;
  chunks = record { chunk_file_name = codes "a"; start = 0; end = 5; bytes = 6 } ∷ [];
}

abbrev dumps : RecoveryState → Bytes
dumps state = 1 ∷ []

abbrev loads : Bytes → Option RecoveryState
loads bytes = some saved_state
