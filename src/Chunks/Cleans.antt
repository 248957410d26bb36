-- ===== src/Chunks/Cleans.antt =====
-- What is left after the temporary files are cleaned up.
use sdownload.Prelude.{
  filter_keep, filter_skip, inr, inl, Bool-cases, ◌≡◌, refl, ap, sym, ◌∙◌, Bool, true, false, ◌||◌,
  Option, none, some, List, [], ◌∷◌, map, filter, if◌then◌else◌, arith,
}
use sdownload.Models.Text.{Text, text_beq, text_beq_iff}
use sdownload.Storage.Protocol.{FileStorage, Bytes, is_listed, is_file}
use sdownload.Stats.{ChunkDownloadStats}
use sdownload.Chunks.Cleanup.{delete_all, cleanup_temp_files}

abbrev pub is_named : Text → List Text → Bool
is_named key [] = false
is_named key (name ∷ names) = text_beq name key || is_named key names

no_file : (file : Option Bytes) → is_file file ≡ false → file ≡ none
no_file none e = refl
no_file (some b) e = cc

if_named :
    (name key : Text) (rest : Bool) (file : Option Bytes)
    → (text_beq name key ≡ true → file ≡ none)
    → (if rest then none else file) ≡ (if text_beq name key || rest then none else file)
if_named name key true file h = ground arith
if_named name key false file h = ground arith

module _ (storage : FileStorage) where
  delete_all-content :
      (names : List Text) (s : storage.State) (key : Text)
      → storage.content (delete_all storage names s).1 key
        ≡ (if is_named key names then none else storage.content s key)
  delete_all-content [] s key = refl
  delete_all-content (name ∷ names) s key =
      let later = delete_all-content names (storage.delete_data name s).1 key in
      ground (arith, later, storage.delete_data_law name s key)

  -- A name that is not listed is not a file, so nothing is lost by leaving it out.
  kept-content :
      (names : List Text) (s0 : storage.State) (key : Text)
      → (if is_named key (filter (λ k. is_listed k (storage.list_data s0)) names)
          then none
          else storage.content s0 key)
        ≡ (if is_named key names then none else storage.content s0 key)
  kept-content [] s0 key = refl
  kept-content (name ∷ names) s0 key =
      let rest = kept-content names s0 key in
      elim (Bool-cases (is_listed name (storage.list_data s0))) [
        | inl listed ↦
            rw (filter_keep (λ k. is_listed k (storage.list_data s0)) name names listed)
              (ground (arith, rest))
        | inr unlisted ↦
            rw (filter_skip (λ k. is_listed k (storage.list_data s0)) name names unlisted) (
              rest
              ∙ if_named name key (is_named key names) (storage.content s0 key) (λ same.
                no_file (storage.content s0 key) (
                  sym (storage.list_data_law key s0)
                  ∙ (ap (λ k. is_listed k (storage.list_data s0))
                        (sym ((text_beq_iff name key).0 same))
                      ∙ unlisted))))
      ]

  -- Afterwards no chunk of the list has a file, and every other file is as it was.
  pub cleanup_temp_files-content :
      (chunks_stats : List ChunkDownloadStats) (s : storage.State) (key : Text)
      → storage.content (cleanup_temp_files storage chunks_stats s).1 key ≡ (
          if is_named key (map (λ c. c.chunk_file_name) chunks_stats)
          then none
          else storage.content s key)
  unfolding cleanup_temp_files
  cleanup_temp_files-content chunks_stats s key =
      let names = map (λ (c : ChunkDownloadStats). c.chunk_file_name) chunks_stats in
      delete_all-content (filter (λ k. is_listed k (storage.list_data s)) names) s key
      ∙ kept-content names s key
