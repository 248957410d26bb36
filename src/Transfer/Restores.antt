-- ===== src/Transfer/Restores.antt =====
-- From the server's bytes to the final file.
use sdownload.Prelude.{
  ℕ, ◌≤◌, ◌<◌, ◌≡◌, inl, inr, In, true, false, Option, none, some, List, [], ◌∷◌, refl, sym, ap,
  ◌∙◌, length, filter_keep, arith, map, subst,
}
use sdownload.Prelude.Int.{pos}
use sdownload.Models.Text.{Text, text_beq}
use sdownload.Models.Range.{ChunkRange}
use sdownload.Exceptions.{Result, ok}
use sdownload.Storage.Protocol.{Bytes, FileStorage, put, put_self}
use sdownload.Stats.{ChunkDownloadStats, is_completed}
use sdownload.Ranges.Split.{after_cached, calculate_ranges}
use sdownload.Ranges.Split.Tiling.{Tiles, calculate_ranges-Tiles}
use sdownload.Ranges.Coverage.{within_reach}
use sdownload.Ranges.Coverage.Chain.{Chain, at_end, hop}
use sdownload.Chunks.{format_chunk_file_name}
use sdownload.Chunks.Names.{format_chunk_file_name-apart}
use sdownload.Chunks.Slices.{slice}
use sdownload.Chunks.Reconstruct.{reconstruct_file, completed_stats}
use sdownload.Chunks.Restores.{IsStored, reconstruct_file-restores}
use sdownload.Manager.{ChunkManager}
use sdownload.HttpClient.Downloader.{ByteResponse}
use sdownload.HttpClient.Downloader.Serves.{Honours}
use sdownload.Transfer.{fetch, fetch_all}
use sdownload.Transfer.Fetches.{started, fetch-slice}

ends_reached :
    (n start : ℕ) (end : Option ℕ)
    → within_reach (after_cached n (record { start = start; end = end })) end ≡ true
ends_reached n start none = refl
ends_reached n start (some e) = ground arith

-- Ranges that tile a file lead from its first byte to its end.
pub Tiles-Chain :
    (n p : ℕ) (chunks rs : List ChunkRange)
    → Tiles n p rs
    → ((c : ChunkRange) → In c rs → In c chunks)
    → Chain chunks (some n) p
Tiles-Chain n p chunks [] h sub = at_end (ground (arith, h))
Tiles-Chain n p chunks (r ∷ rs) (starts, longer, within, rest) sub =
    hop r (sub r (inl refl)) starts longer (ends_reached n r.start r.end)
      (Tiles-Chain n (after_cached n r) chunks rs rest (λ c i. sub c (inr i)))

-- The ranges behind an offset start behind it.
pub Tiles-start :
    (n p : ℕ) (rs : List ChunkRange) (c : ChunkRange) → Tiles n p rs → In c rs → p ≤ c.start
Tiles-start n p [] c h i = absurd i
Tiles-start n p (r ∷ rs) c (starts, longer, within, rest) (inl e) =
    subst (λ x. p ≤ x.start) (sym e) (omega (arith, starts))
Tiles-start n p (r ∷ rs) c (starts, longer, within, rest) (inr i) =
    let later = Tiles-start n (after_cached n r) rs c rest i in omega (arith, longer, later)

module _ (storage : FileStorage) (server : Option Text → Result ByteResponse) (now : ℕ)
    (source : Bytes) (etag : Text) (honours : Honours source etag server) (self : ChunkManager)
    (known : self.file_size ≡ some (pos (length source))) (target : Option ℕ) where
  abbrev n : ℕ
  n = length source

  abbrev name_for : ChunkRange → Text
  name_for r = format_chunk_file_name r self.file_name

  abbrev stats_of : ChunkRange → ChunkDownloadStats
  stats_of r = started storage server now source etag honours self known target r

  abbrev run : List ChunkRange → storage.State → List ChunkDownloadStats × storage.State
  run rs s = fetch_all storage server now (map stats_of rs) s

  -- The tasks change no file but those of their chunks.
  run-other :
      (p : ℕ) (rs : List ChunkRange) (key : Text) (s : storage.State)
      → Tiles n p rs
      → ((c : ChunkRange) → In c rs → text_beq (name_for c) key ≡ false)
      → storage.content (run rs s).1 key ≡ storage.content s key
  run-other p [] key s h apart = refl
  run-other p (r ∷ rs) key s (starts, longer, within, rest) apart =
      let (result, after, s1) = fetch storage server now (stats_of r) s in
      let (done, range, name, content) =
        fetch-slice storage server now source etag honours self known target r s
          (omega (arith, starts, longer), within) in
      run-other (after_cached n r) rs key s1 rest (λ c i. apart c (inr i))
      ∙ (content key ∙ rw (apart r (inl refl)) refl)

  -- The tasks complete their chunks, and leave their bytes of the source in their files.
  run-IsStored :
      (p : ℕ) (rs : List ChunkRange) (s : storage.State)
      → Tiles n p rs
      → (completed_stats (run rs s).0 ≡ (run rs s).0)
        × (map (λ t. t.range) (run rs s).0 ≡ rs)
        × IsStored (storage.content (run rs s).1) self.file_name source (run rs s).0
  run-IsStored p [] s h = (refl, refl, ground arith)
  run-IsStored p (r ∷ rs) s (starts, longer, within, rest) =
      let (result, after, s1) = fetch storage server now (stats_of r) s in
      let (done, range, name, content) =
        fetch-slice storage server now source etag honours self known target r s
          (omega (arith, starts, longer), within) in
      let (all_done, ranges, stored) = run-IsStored (after_cached n r) rs s1 rest in
      let later = run-other (after_cached n r) rs (name_for r) s1 rest (λ c i.
        format_chunk_file_name-apart r c self.file_name
          (omega (arith, starts, longer, Tiles-start n (after_cached n r) rs c rest i))) in
      (
        filter_keep (λ x. is_completed x.status) after (run rs s1).0 (ap is_completed done)
            ∙ ap (λ l. after ∷ l) all_done,
        ap (λ x. x ∷ map (λ t. t.range) (run rs s1).0) range ∙ ap (λ l. r ∷ l) ranges,
        (
          (
            name ∙ sym (ap name_for range),
            ap (λ k. storage.content (run rs s1).1 k) name
                ∙ (later
                    ∙ (content (name_for r)
                        ∙ (put_self (name_for r) (some (slice r source)) (storage.content s)
                            ∙ ap (λ x. some (slice x source)) (sym range)))),
          ),
          stored,
        ),
      )

  -- A download of a file that is not empty, from a server that honours byte ranges: the file is cut
  -- into ranges, the task of each chunk runs, and the chunks are put together. This returns
  -- the name of the final file, which has become the server's, and changes no other file.
  pub download-restores :
      (num_parts : ℕ) (s : storage.State)
      → 0 < length source
      → let ranges = calculate_ranges (length source) num_parts [] in
        let (stats_list, s1) =
          fetch_all storage server now
            (map (started storage server now source etag honours self known target) ranges)
            s in
        ((reconstruct_file storage stats_list self.file_name (some (length source)) s1).0
          ≡ ok self.file_name)
        × ((key : Text)
            → storage.content
                (reconstruct_file storage stats_list self.file_name (some (length source)) s1).1
                key
              ≡ put self.file_name (some source) (storage.content s1) key)
  download-restores num_parts s positive =
      let ranges = calculate_ranges n num_parts [] in
      let tiles : Tiles n 0 ranges = calculate_ranges-Tiles n num_parts [] (omega arith) in
      let (all_done, same, stored) = run-IsStored 0 ranges s tiles in
      let stats_list = (run ranges s).0 in
      let chunks : map (λ t. t.range) (completed_stats stats_list) ≡ ranges =
        ap (map (λ t. t.range)) all_done ∙ same in
      reconstruct_file-restores storage stats_list self.file_name (some n) (run ranges s).1 source
        (subst (IsStored (storage.content (run ranges s).1) self.file_name source) (sym all_done)
          stored)
        refl (ground (arith, positive))
        (subst (λ c. Chain c (some n) 0) (sym chunks)
          (Tiles-Chain n 0 ranges ranges tiles (λ c i. i)))
