-- ===== src/Recovery.antt =====
-- services/downloader_manager/recovery_download.py and interfaces/models/recovery_models.py: the state
-- of a download that is saved and loaded again. JSON is a parameter: how a state is written, and how
-- bytes are read back, if they can be.
pub mod Rounds
pub mod Purge
use sdownload.Prelude.{
  ℕ, ◌+◌, ◌-◌, Bool, true, false, ◌||◌, not, ◌==◌, ltb, leb, Option, none, some, List, [], ◌∷◌,
  ◌++◌, map, concat, if◌then◌else◌,
}
use sdownload.Prelude.Int.{ℤ, pos}
use sdownload.Models.Text.{Text, codes}
use sdownload.Models.Range.{ChunkRange}
use sdownload.Exceptions.{Exc, Result, ok, err, is_cancelled_error}
use sdownload.Storage.Protocol.{Bytes, Stream, StoredFileInfo, FileStorage}
use sdownload.Stats.{
  ChunkDownloadStats, DownloadStatus, completed, is_completed, new_stats, Quotient,
}

-- `RecoveryChunkDTO`
pub record RecoveryChunk : Type 0 where
  pub chunk_file_name : Text
  pub start : ℕ
  pub end : ℕ
  pub bytes : ℕ

-- `RecoveryStateDTO`, without the time.
pub record RecoveryState : Type 0 where
  pub file_id : Text
  pub file_size : ℕ
  pub chunks : List RecoveryChunk

-- `DownloadInfo`, without the time.
pub record DownloadInfo : Type 0 where
  pub file_id : Text
  pub file_size : ℕ
  pub chunks_finished : List ChunkDownloadStats

-- `_get_recovery_key`
unfoldable pub get_recovery_key : Text → Text
get_recovery_key file_id = codes ".sdown_resume_" ++ file_id ++ codes ".json"

-- What the loop of `save_info` does with a chunk: it is saved, deleted, or neither (it has no data).
pub data Verdict : Type 0 where
  saved : RecoveryChunk → Verdict
  useless : Text → Verdict
  ignored : Verdict

abbrev pub judge : ℕ → ℕ → ChunkDownloadStats → Verdict
judge min_chunk_size actual_size stats =
    if not (actual_size == stats.bytes_downloaded)
    then useless stats.chunk_file_name
    else if ltb 0 actual_size
    then if is_completed stats.status || leb min_chunk_size actual_size
      then saved (record {
        chunk_file_name = stats.chunk_file_name;
        start = stats.range.start;
        end = stats.range.start + actual_size - 1;
        bytes = actual_size;
      })
      else useless stats.chunk_file_name
    else ignored

abbrev pub saved_chunks : List Verdict → List RecoveryChunk
saved_chunks [] = []
saved_chunks (saved c ∷ verdicts) = c ∷ saved_chunks verdicts
saved_chunks (_ ∷ verdicts) = saved_chunks verdicts

abbrev pub useless_names : List Verdict → List Text
useless_names [] = []
useless_names (useless name ∷ verdicts) = name ∷ useless_names verdicts
useless_names (_ ∷ verdicts) = useless_names verdicts

abbrev pub size_or_zero : Option StoredFileInfo → ℕ
size_or_zero none = 0
size_or_zero (some info) = info.size_bytes

-- The stats of a saved chunk.
abbrev pub recovered : RecoveryChunk → ℕ → ChunkDownloadStats
recovered c now =
    record (new_stats c.chunk_file_name (record { start = c.start; end = some c.end })
      (some (pos c.bytes)) completed none now) {
        bytes_downloaded = c.bytes;
        progress = some (record { num = pos 100; den = pos 1 });
      }

abbrev pub names_of : Option DownloadInfo → List Text
names_of none = []
names_of (some info) = map (λ c. c.chunk_file_name) info.chunks_finished

module _ (storage : FileStorage) where
  -- `info_map.get(name, 0)`
  abbrev pub size_on_disk : Text → storage.State → ℕ
  size_on_disk name s = size_or_zero (storage.get_data_info name s)

  abbrev pub verdicts : ℕ → List ChunkDownloadStats → storage.State → List Verdict
  verdicts min_chunk_size [] s = []
  verdicts min_chunk_size (stats ∷ stats_list) s =
      judge min_chunk_size (size_on_disk stats.chunk_file_name s) stats
      ∷ verdicts min_chunk_size stats_list s

  -- `safe_delete` of each name: an exception is logged only.
  abbrev pub delete_safely : List Text → storage.State → storage.State
  delete_safely [] s = s
  delete_safely (name ∷ names) s = delete_safely names (storage.delete_data name s).1

  abbrev pub state_of : Text → ℕ → ℕ → List ChunkDownloadStats → storage.State → RecoveryState
  state_of file_id total_file_size min_chunk_size stats_list s = record {
    file_id = file_id;
    file_size = total_file_size;
    chunks = saved_chunks (verdicts min_chunk_size stats_list s);
  }

  abbrev pub after_saving :
      Bool → List Text → Result (Unit {0}) × storage.State → Result (Unit {0}) × storage.State
  after_saving delete_useless_chunks names (err e, s) = (err e, s)
  after_saving delete_useless_chunks names (ok u, s) =
      (ok tt, if delete_useless_chunks then delete_safely names s else s)

  -- The loop of `load_info`: a chunk counts if its file has at least the saved bytes.
  abbrev pub valid_stats : List RecoveryChunk → ℕ → storage.State → List ChunkDownloadStats
  valid_stats [] now s = []
  valid_stats (c ∷ chunks) now s =
      if leb c.bytes (size_on_disk c.chunk_file_name s)
      then recovered c now ∷ valid_stats chunks now s
      else valid_stats chunks now s

  abbrev pub loaded : Option RecoveryState → ℕ → storage.State → Option DownloadInfo
  loaded none now s = none
  loaded (some state) now s = some (record {
    file_id = state.file_id;
    file_size = state.file_size;
    chunks_finished = valid_stats state.chunks now s;
  })

  unfoldable pub delete_info : Text → storage.State → storage.State
  unfolding get_recovery_key
  delete_info file_id s = (storage.delete_data (get_recovery_key file_id) s).1

module _ (storage : FileStorage) (json_dumps : RecoveryState → Bytes)
    (json_loads : Bytes → Option RecoveryState) where
  unfoldable pub save_info :
      Text
      → ℕ
      → List ChunkDownloadStats
      → ℕ
      → Bool
      → storage.State
      → Result (Unit {0}) × storage.State
  unfolding get_recovery_key
  save_info [] total_file_size stats_list min_chunk_size delete_useless_chunks s = (ok tt, s)
  save_info (i ∷ id) total_file_size stats_list min_chunk_size delete_useless_chunks s =
      after_saving storage delete_useless_chunks
        (useless_names (verdicts storage min_chunk_size stats_list s))
        (storage.save_binary_data (get_recovery_key (i ∷ id))
          (record {
            pieces =
                json_dumps (state_of storage (i ∷ id) total_file_size min_chunk_size stats_list s)
                ∷ [];
            failure = none;
          })
          s)

  -- The `try` block: `except Exception` lets a CancelledError pass.
  abbrev pub read_stream : Stream → ℕ → storage.State → Result (Option DownloadInfo)
  read_stream stream now s = elim stream.failure [
    | none ↦ ok (loaded storage (json_loads (concat stream.pieces)) now s)
    | some e ↦ if is_cancelled_error e then err e else ok none
  ]

  unfoldable pub load_info : Text → ℕ → storage.State → Result (Option DownloadInfo)
  unfolding get_recovery_key
  load_info file_id now s = elim (storage.get_data_info (get_recovery_key file_id) s) [
    | none ↦ ok none
    | some info ↦ read_stream (storage.get_binary_data (get_recovery_key file_id) s) now s
  ]

  abbrev pub purge_found :
      Text → storage.State → Result (Option DownloadInfo) → Result (Unit {0}) × storage.State
  purge_found recovery_key s (err e) = (err e, s)
  purge_found recovery_key s (ok info) =
      (ok tt, (storage.delete_data recovery_key (delete_safely storage (names_of info) s)).1)

  unfoldable pub purge_all : Text → ℕ → storage.State → Result (Unit {0}) × storage.State
  unfolding load_info get_recovery_key
  purge_all file_id now s = purge_found (get_recovery_key file_id) s (load_info file_id now s)
