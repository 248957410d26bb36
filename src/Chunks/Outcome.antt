-- ===== src/Chunks/Outcome.antt =====
-- How a reconstruction ends.
use sdownload.Prelude.{
  true, Bool-cases, ap, ◌∙◌, arith, ℕ, ◌≡◌, refl, Option, none, some, List, [], ◌∷◌, ◌⊎◌, inl, inr,
  map,
}
use sdownload.Models.Text.{Text}
use sdownload.Exceptions.{
  Exc, Result, ok, err, reconstruction_error, cancelled_error, is_cancelled_error,
}
use sdownload.Ranges.Coverage.{Coverage, found, raised, calculate_optimal_coverage}
use sdownload.Storage.Protocol.{FileStorage, FileRangeParams}
use sdownload.Stats.{ChunkDownloadStats}
use sdownload.Chunks.Reconstruct.{
  completed_stats, merged_into, merge_found, merge_fragments, merge_configs, range_map_from,
  reconstruct_completed, reconstruct_file,
}

module _ (storage : FileStorage) (name : Text) where
  -- From the files `before`, a reconstruction returned the name, or raised a ReconstructionError, or
  -- was cancelled, and this in a merge of the storage.
  abbrev pub HasEnded : storage.State → Result Text × storage.State → Type 0
  HasEnded before (r, s) =
      (r ≡ ok name)
      ⊎ ((r ≡ err reconstruction_error)
          ⊎ ((r ≡ err cancelled_error)
              × (configs : List FileRangeParams) × ((storage.merge_ranges configs name before).0
                  ≡ err cancelled_error)))

  is_cancelled_error-eq : (e : Exc) → is_cancelled_error e ≡ true → e ≡ cancelled_error
  is_cancelled_error-eq e h = ground (arith, h)

  merged_into-HasEnded :
      (before : storage.State) (configs : List FileRangeParams) (r : Result (Unit {0}))
      (s : storage.State)
      → (storage.merge_ranges configs name before).0 ≡ r
      → HasEnded before (merged_into storage name (r, s))
  merged_into-HasEnded before configs (ok u) s h = inl refl
  merged_into-HasEnded before configs (err e) s h = elim (Bool-cases (is_cancelled_error e)) [
    | inl stops ↦
        let same : e ≡ cancelled_error = is_cancelled_error-eq e stops in
        rw stops (inr (inr (ap (λ x. err x) same, configs, h ∙ ap (λ x. err x) same)))
    | inr fails ↦ rw fails (inr (inl refl))
  ]

  merge_found-HasEnded :
      (configs : Option (List FileRangeParams)) (s : storage.State)
      → HasEnded s (merge_found storage configs name s)
  merge_found-HasEnded none s = inr (inl refl)
  merge_found-HasEnded (some configs) s =
      let (r, s1) = storage.merge_ranges configs name s in merged_into-HasEnded s configs r s1 refl

  merge_fragments-HasEnded :
      (completed : List ChunkDownloadStats) (coverage : Coverage) (s : storage.State)
      → HasEnded s (merge_fragments storage completed coverage name s)
  merge_fragments-HasEnded completed (raised e) s = inr (inl refl)
  merge_fragments-HasEnded completed (found fragments) s =
      merge_found-HasEnded (merge_configs (range_map_from [] completed) fragments) s

  reconstruct_completed-HasEnded :
      (stats : List ChunkDownloadStats) (size : Option ℕ) (s : storage.State)
      → HasEnded s (reconstruct_completed storage stats name size s)
  reconstruct_completed-HasEnded [] size s = inr (inl refl)
  reconstruct_completed-HasEnded (c ∷ cs) size s =
      merge_fragments-HasEnded (c ∷ cs)
        (calculate_optimal_coverage (map (λ t. t.range) (c ∷ cs)) size) s

  -- Whatever the chunks and the storage are, `reconstruct_file` returns the name of the final file or
  -- raises a `ReconstructionError`, unless it is cancelled while the storage merges.
  pub reconstruct_file-HasEnded :
      (stats_list : List ChunkDownloadStats) (size : Option ℕ) (s : storage.State)
      → HasEnded s (reconstruct_file storage stats_list name size s)
  unfolding reconstruct_file
  reconstruct_file-HasEnded stats_list size s =
      reconstruct_completed-HasEnded (completed_stats stats_list) size s
