-- ===== src/Manager/Merges.antt =====
-- The end of a download: the chunks are merged, and their files deleted.
use sdownload.Prelude.{◌≡◌, refl, ap, ◌∙◌, true, false, none, some, [], map, length, if◌then◌else◌}
use sdownload.Prelude.Dict.{values}
use sdownload.Prelude.Int.{ℤ, pos}
use sdownload.Models.Text.{Text}
use sdownload.Exceptions.{Result, ok, err}
use sdownload.Ranges.Coverage.{is_goal}
use sdownload.Ranges.Coverage.Sound.{IsTarget}
use sdownload.Ranges.Coverage.Chain.{Chain}
use sdownload.Storage.Protocol.{Bytes, FileStorage, put}
use sdownload.Chunks.Cleanup.{cleanup_temp_files}
use sdownload.Chunks.Cleans.{is_named, cleanup_temp_files-content}
use sdownload.Chunks.Reconstruct.{completed_stats, reconstruct_file}
use sdownload.Chunks.Restores.{IsStored, reconstruct_file-restores}
use sdownload.Manager.{ℤ, ℕ, ChunkDownloadStats, Option, List, ChunkManager}
use sdownload.Manager.Stops.{
  StatsDict, cancel_all_chunks, gathered, stopped, after_deleting, cleanup, reconstruct_sized,
  with_key, after_reconstruction, merge_chunks,
}

-- A size as an integer.
abbrev pub as_size : Option ℕ → Option ℤ
as_size none = none
as_size (some n) = some (pos n)

reconstruct_sized-eq :
    (storage : FileStorage) (stats_list : List ChunkDownloadStats) (file_name : Text)
    (size : Option ℕ) (s : storage.State)
    → reconstruct_sized storage stats_list file_name (as_size size) s
      ≡ reconstruct_file storage stats_list file_name size s
reconstruct_sized-eq storage stats_list file_name none s = refl
reconstruct_sized-eq storage stats_list file_name (some n) s = refl

module _ (settle : StatsDict → StatsDict) (storage : FileStorage) where
  with_key-files :
      (key : Text) (r : Result (Unit {0})) (self : ChunkManager) (s : storage.State)
      → (with_key settle storage key (r, self, s)).2 ≡ s
  with_key-files key (ok u) self s = refl
  with_key-files key (err e) self s = refl

  after_deleting-files :
      (self : ChunkManager) (r : Result (Unit {0})) (s : storage.State)
      → (after_deleting settle storage self (r, s)).2 ≡ s
  after_deleting-files self (ok u) s = refl
  after_deleting-files self (err e) s = refl

  stopped-stats :
      (self : ChunkManager)
      → self.chunks_tasks ≡ []
      → (stopped settle storage self).chunks_stats ≡ self.chunks_stats
  unfolding cancel_all_chunks
  stopped-stats self e = ap (λ tasks. gathered settle tasks self.chunks_stats) e

  -- Without running tasks a cleanup deletes the files of the manager's chunks, and no other file.
  pub cleanup-content :
      (self : ChunkManager) (s : storage.State) (key : Text)
      → self.chunks_tasks ≡ []
      → self.cleaned_up ≡ false
      → storage.content (cleanup settle storage true self s).2 key ≡ (
          if is_named key (map (λ c. c.chunk_file_name) (values self.chunks_stats))
          then none
          else storage.content s key)
  unfolding cleanup
  cleanup-content self s key idle fresh =
      let now_stopped = stopped settle storage self in
      let deleted = cleanup_temp_files storage (values now_stopped.chunks_stats) s in
      rw fresh (
        ap (λ x. storage.content x key) (after_deleting-files now_stopped deleted.0 deleted.1)
        ∙ (cleanup_temp_files-content storage (values now_stopped.chunks_stats) s key
            ∙ ap
                (λ stats.
                  if is_named key (map (λ c. c.chunk_file_name) (values stats))
                  then none
                  else storage.content s key)
                (stopped-stats self idle)))

  -- The size of the file is not negative, or not known, no task runs, and the completed chunks hold their bytes of the source and lead from its first byte
  -- to its end. After `merge_chunks` with its cleanup, which may still raise, the final file is the
  -- source if no chunk has its name, the chunks' files are gone, and no other file has changed.
  pub merge_chunks-restores :
      (self : ChunkManager) (size : Option ℕ) (s : storage.State) (source : Bytes) (key : Text)
      → self.file_size ≡ as_size size
      → self.chunks_tasks ≡ []
      → self.cleaned_up ≡ false
      → IsStored
          (storage.content s)
          self.file_name
          source
          (completed_stats (values self.chunks_stats))
      → IsTarget
          (map (λ t. t.range) (completed_stats (values self.chunks_stats)))
          (length source)
          size
      → is_goal size 0 ≡ false
      → Chain (map (λ t. t.range) (completed_stats (values self.chunks_stats))) size 0
      → storage.content (merge_chunks settle storage true self s).2 key ≡ (
          if is_named key (map (λ c. c.chunk_file_name) (values self.chunks_stats))
          then none
          else put self.file_name (some source) (storage.content s) key)
  unfolding merge_chunks
  merge_chunks-restores self size s source key sized idle fresh stored target goal chain =
      let rebuilt = reconstruct_file storage (values self.chunks_stats) self.file_name size s in
      let (returned, content) =
        reconstruct_file-restores storage (values self.chunks_stats) self.file_name size s source
          stored target goal chain in
      let cleaned = cleanup settle storage true self rebuilt.1 in
      let same : reconstruct_sized storage (values self.chunks_stats) self.file_name self.file_size
            s
          ≡ rebuilt =
        ap (λ z. reconstruct_sized storage (values self.chunks_stats) self.file_name z s) sized
        ∙ reconstruct_sized-eq storage (values self.chunks_stats) self.file_name size s in
      ap (λ r. storage.content (after_reconstruction settle storage true self r).2 key) same
      ∙ ap
          (λ r.
            storage.content (after_reconstruction settle storage true self (r, rebuilt.1)).2 key)
          returned
      ∙ (ap (λ x. storage.content x key)
            (with_key-files self.file_name cleaned.0 cleaned.1 cleaned.2)
          ∙ (cleanup-content self rebuilt.1 key idle fresh
              ∙ ap
                  (λ file.
                    if is_named key (map (λ c. c.chunk_file_name) (values self.chunks_stats))
                    then none
                    else file)
                  (content key)))
