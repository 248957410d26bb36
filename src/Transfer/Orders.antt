-- ===== src/Transfer/Orders.antt =====
-- A download whose tasks run in any order.
use sdownload.Prelude.Int.{pos}
use sdownload.Manager.{ChunkManager, registered_stats}
use sdownload.Stats.{pending}
use sdownload.Ranges.Split.{calculate_ranges}
use sdownload.Storage.Protocol.{FileStorage, put}
use sdownload.Chunks.Reconstruct.{reconstruct_file}
use sdownload.Chunks.Restores.{reconstruct_file-restores}
use sdownload.Ranges.Coverage.Chain.{Chain}
use sdownload.Transfer.Restores.{Tiles-Chain}
use sdownload.Ranges.Split.Tiling.{calculate_ranges-Tiles}
use sdownload.Transfer.{raw_stream}
use sdownload.Transfer.Tasks.{waiting, Steps}
use sdownload.Transfer.Interleaves.{AllRight-same, Steps-AllRight}
use sdownload.HttpClient.Downloader.{ByteResponse}
use sdownload.HttpClient.Downloader.Serves.{Honours}
use sdownload.Transfer.Fetches.{IsWithin, ends-size, raw_stream-slice}
use sdownload.Exceptions.{ok}
use sdownload.Prelude.{
  Option, subst, length, ℕ, ◌≡◌, ◌<◌, inl, inr, In, IsDistinct, some, List, [], ◌∷◌, refl, sym, ap,
  ◌∙◌, arith, map, filter_keep,
}
use sdownload.Models.Text.{Text, text_beq_iff}
use sdownload.Models.Range.{ChunkRange}
use sdownload.Exceptions.{Result}
use sdownload.Storage.Protocol.{Bytes}
use sdownload.Stats.{ChunkDownloadStats, is_completed}
use sdownload.Ranges.Split.{after_cached}
use sdownload.Ranges.Split.Tiling.{Tiles}
use sdownload.Chunks.{format_chunk_file_name}
use sdownload.Chunks.Names.{format_chunk_file_name-apart}
use sdownload.Chunks.Slices.{slice}
use sdownload.Chunks.Reconstruct.{completed_stats}
use sdownload.Chunks.Restores.{IsStored}
use sdownload.Transfer.Tasks.{ended, Task, Contents}
use sdownload.Transfer.Interleaves.{AllRight}

-- Every task has come to its end.
abbrev pub AllEnded : List Task → Type 0
AllEnded [] = Unit
AllEnded (t ∷ tasks) = ((result : Result ChunkRange) × (t.phase ≡ ended result)) × AllEnded tasks

abbrev pub task_stats : List Task → List ChunkDownloadStats
task_stats tasks = map (λ t. t.stats) tasks

module _ (source : Bytes) (name : Text) where
  abbrev pub name_for : ChunkRange → Text
  name_for r = format_chunk_file_name r name

  -- No two ranges that tile a file have the same file name.
  Tiles-apart :
      (n p : ℕ) (r : ChunkRange) (rs : List ChunkRange)
      → Tiles n p rs
      → r.start < p
      → ¬ In (name_for r) (map name_for rs)
  Tiles-apart n p r [] h below i = i
  Tiles-apart n p r (c ∷ rs) (starts, longer, within, rest) below (inl e) = ground (
    arith,
    e,
    format_chunk_file_name-apart r c name (omega (arith, starts, below)),
    text_beq_iff (name_for c) (name_for r),
  )
  Tiles-apart n p r (c ∷ rs) (starts, longer, within, rest) below (inr i) =
      Tiles-apart n (after_cached n c) r rs rest (omega (arith, longer, below)) i

  pub Tiles-IsDistinct :
      (n p : ℕ) (rs : List ChunkRange) → Tiles n p rs → IsDistinct (map name_for rs)
  Tiles-IsDistinct n p [] h = ground arith
  Tiles-IsDistinct n p (r ∷ rs) (starts, longer, within, rest) = (
    Tiles-apart n (after_cached n r) r rs rest (omega (arith, starts, longer)),
    Tiles-IsDistinct n (after_cached n r) rs rest,
  )

  -- Tasks that are right and have ended left completed chunks with their bytes.
  AllRight-IsStored :
      (content : Contents) (rs : List ChunkRange) (tasks : List Task)
      → AllRight source name_for rs tasks content
      → AllEnded tasks
      → (completed_stats (task_stats tasks) ≡ task_stats tasks)
        × (map (λ t. t.range) (task_stats tasks) ≡ rs)
        × IsStored content name source (task_stats tasks)
  AllRight-IsStored content [] [] h ended_all = (refl, refl, ground arith)
  AllRight-IsStored content [] (t ∷ tasks) h ended_all = absurd h
  AllRight-IsStored content (r ∷ rs) [] h ended_all = absurd h
  AllRight-IsStored content (r ∷ rs) (t ∷ tasks) ((range, named, size, phase), h)
        ((result, at_end), ended_all) =
      let (all_done, ranges, stored) = AllRight-IsStored content rs tasks h ended_all in
      let (done, found) = rw at_end at phase in
      (
        filter_keep (λ x. is_completed x.status) t.stats (task_stats tasks) (ap is_completed done)
            ∙ ap (λ l. t.stats ∷ l) all_done,
        ap (λ x. x ∷ map (λ u. u.range) (task_stats tasks)) range ∙ ap (λ l. r ∷ l) ranges,
        (
          (
            named ∙ sym (ap name_for range),
            ap content named ∙ (found ∙ ap (λ x. some (slice x source)) (sym range)),
          ),
          stored,
        ),
      )

module _ (storage : FileStorage) (server : Option Text → Result ByteResponse) (now : ℕ)
    (source : Bytes) (etag : Text) (honours : Honours source etag server) (self : ChunkManager)
    (known : self.file_size ≡ some (pos (length source))) (target : Option ℕ) where
  -- The task of a chunk that the manager starts, before its first step.
  abbrev pub new_task : ChunkRange → Task
  new_task r = record {
    stats = registered_stats r target pending now self;
    phase = waiting (raw_stream server r);
  }

  pub new_task-AllRight :
      (p : ℕ) (rs : List ChunkRange) (files : Contents)
      → Tiles (length source) p rs
      → AllRight source (name_for source self.file_name) rs (map new_task rs) files
  new_task-AllRight p [] files h = ground arith
  new_task-AllRight p (r ∷ rs) files (starts, longer, within, rest) =
      let inside : IsWithin (length source) r = (omega (arith, starts, longer), within) in
      let (whole, fine) = raw_stream-slice server source etag r honours inside in
      (
        (refl, refl, rw known (ends-size r.start r.end source inside), (whole, fine, refl)),
        new_task-AllRight (after_cached (length source) r) rs files rest,
      )

  -- A download of a file that is not empty, from a server that honours byte ranges: whatever order the
  -- tasks of the chunks run in, once all have ended, putting the chunks together in a storage with the
  -- files that they left returns the name of the final file, which has become the server's, and changes
  -- no other file.
  pub any_order-restores :
      (num_parts : ℕ) (files files1 : Contents) (tasks : List Task) (s : storage.State)
      → 0 < length source
      → Steps (map new_task (calculate_ranges (length source) num_parts [])) files tasks files1
      → AllEnded tasks
      → ((key : Text) → storage.content s key ≡ files1 key)
      → ((reconstruct_file storage (task_stats tasks) self.file_name (some (length source)) s).0
          ≡ ok self.file_name)
        × ((key : Text)
            → storage.content
                (reconstruct_file storage
                  (task_stats tasks)
                  self.file_name
                  (some (length source))
                  s).1
                key
              ≡ put self.file_name (some source) (storage.content s) key)
  any_order-restores num_parts files files1 tasks s positive steps ended_all agree =
      let n = length source in
      let ranges = calculate_ranges n num_parts [] in
      let naming = name_for source self.file_name in
      let tiles : Tiles n 0 ranges = calculate_ranges-Tiles n num_parts [] (omega arith) in
      let right =
        Steps-AllRight source naming ranges (map new_task ranges) tasks files files1
          (Tiles-IsDistinct source self.file_name n 0 ranges tiles) steps
          (new_task-AllRight 0 ranges files tiles) in
      let here_right =
        AllRight-same source naming ranges tasks files1 (storage.content s)
          (λ r i. agree (naming r)) right in
      let (all_done, same, stored) =
        AllRight-IsStored source self.file_name (storage.content s) ranges tasks here_right
          ended_all in
      let chunks : map (λ t. t.range) (completed_stats (task_stats tasks)) ≡ ranges =
        ap (map (λ t. t.range)) all_done ∙ same in
      reconstruct_file-restores storage (task_stats tasks) self.file_name (some n) s source
        (subst (IsStored (storage.content s) self.file_name source) (sym all_done) stored) refl
        (ground (arith, positive))
        (subst (λ c. Chain c (some n) 0) (sym chunks)
          (Tiles-Chain n 0 ranges ranges tiles (λ c i. i)))
