-- ===== src/Recovery/Rounds.antt =====
-- Saving the state of a download and loading it again.
use sdownload.Prelude.{false, ◌-◌, ◌+◌, ℕ, ◌≡◌, refl, none, List, [], ◌∷◌, arith, if◌then◌else◌}
use sdownload.Models.Text.{Text, text_beq}
use sdownload.Storage.Protocol.{FileStorage}
use sdownload.Stats.{ChunkDownloadStats}
use sdownload.Chunks.Cleans.{is_named}
use sdownload.Recovery.{RecoveryChunk, delete_safely}

abbrev saved_of : ℕ → ChunkDownloadStats → RecoveryChunk
saved_of n stats = record {
  chunk_file_name = stats.chunk_file_name;
  start = stats.range.start;
  end = stats.range.start + n - 1;
  bytes = n;
}

-- The names of the chunks are not the recovery file's, and not among those to delete.
abbrev pub IsKept : Text → List Text → List RecoveryChunk → Type 0
IsKept key names [] = Unit
IsKept key names (c ∷ chunks) =
    (text_beq key c.chunk_file_name ≡ false)
    × (is_named c.chunk_file_name names ≡ false)
    × IsKept key names chunks

module _ (storage : FileStorage) where
  pub delete_safely-content :
      (names : List Text) (s : storage.State) (key : Text)
      → storage.content (delete_safely storage names s) key
        ≡ (if is_named key names then none else storage.content s key)
  delete_safely-content [] s key = refl
  delete_safely-content (name ∷ names) s key =
      let later = delete_safely-content names (storage.delete_data name s).1 key in
      ground (arith, later, storage.delete_data_law name s key)
