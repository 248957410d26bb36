-- ===== src/Chunks/Succeeds.antt =====
-- What a succession makes of the predecessor's file.
use sdownload.Models.Text.{Text}
use sdownload.Chunks.Slices.{slice, slice_open, slice_closed}
use sdownload.Exceptions.{Result, ok}
use sdownload.Prelude.{
  false, sym, refl, length-drop, ap, take_all, ◌∙◌, take-take, drop-drop, drop-take, min, inr, inl,
  Option-cases, ℕ, ◌+◌, ◌-◌, ◌≤◌, ◌<◌, ◌≡◌, none, some, take, drop, length, arith,
}
use sdownload.Prelude.Int.{ℤ, pos}
use sdownload.Models.Range.{ChunkRange}
use sdownload.Storage.Protocol.{put, put_self, FileStorage, Bytes}
use sdownload.Stats.{completed, deprecated, awaiting_succession, ChunkDownloadStats}
use sdownload.Chunks.Succession.{
  lacks_data, after_move, after_crop, run_chunk_succession, completes, succeed, Both, Waited,
  no_task, returned, task_cancelled, task_failed, interrupted, start_crop, end_crop,
}

-- The wait ends and lets the succession go on.
abbrev pub IsUsable : Waited → Type 0
IsUsable (task_failed e) = ⊥
IsUsable (interrupted task) = ⊥
IsUsable _ = Unit

-- The file of the predecessor has the first bytes of its range of the source, as many as it counted.
pub record HasDownloaded (source : Bytes) (predecessor : ChunkDownloadStats) (file : Bytes)
    : Type 0 where
  pub front : file ≡ take predecessor.bytes_downloaded (drop predecessor.range.start source)
  pub counted : length file ≡ predecessor.bytes_downloaded

-- The successor's range lies in what was downloaded; without an end, that is all of the source.
abbrev pub IsInside : Bytes → ChunkDownloadStats → ChunkDownloadStats → Type 0
IsInside source predecessor successor = elim successor.range.end [
  | some e ↦
      (successor.range.start ≤ e) × (e < predecessor.range.start + predecessor.bytes_downloaded)
  | none ↦
      (successor.range.start < length source)
      × (length source ≡ predecessor.range.start + predecessor.bytes_downloaded)
]

-- The end of the crop as an offset in the predecessor's file.
abbrev pub last_kept : ChunkDownloadStats → ChunkDownloadStats → ℕ
last_kept predecessor successor = elim successor.range.end [
  | some e ↦ e - predecessor.range.start
  | none ↦ predecessor.bytes_downloaded - 1
]

crop_bounds :
    (source : Bytes) (predecessor successor : ChunkDownloadStats)
    → predecessor.range.start ≤ successor.range.start
    → 0 < predecessor.bytes_downloaded
    → IsInside source predecessor successor
    → (start_crop predecessor successor ≡ pos (successor.range.start - predecessor.range.start))
      × (end_crop predecessor successor ≡ pos (last_kept predecessor successor))
      × (successor.range.start - predecessor.range.start ≤ last_kept predecessor successor)
      × (last_kept predecessor successor < predecessor.bytes_downloaded)
crop_bounds source predecessor successor h b i = elim (Option-cases successor.range.end) [
  | inl open_end ↦ (ground arith, ground arith, ground arith, ground arith)
  | inr (e, closed) ↦ (ground arith, ground arith, ground arith, ground arith)
]

-- The bytes that the crop keeps are those of the successor's range.
kept-slice :
    (source file : Bytes) (predecessor successor : ChunkDownloadStats)
    → HasDownloaded source predecessor file
    → predecessor.range.start ≤ successor.range.start
    → 0 < predecessor.bytes_downloaded
    → IsInside source predecessor successor
    → let first = successor.range.start - predecessor.range.start in
      take (last_kept predecessor successor + 1 - first) (drop first file)
      ≡ slice successor.range source
kept-slice source file predecessor successor has h b i =
    let first = successor.range.start - predecessor.range.start in
    let behind : predecessor.range.start + first ≡ successor.range.start = omega arith in
    let size : min (last_kept predecessor successor + 1 - first)
          (predecessor.bytes_downloaded - first)
        ≡ last_kept predecessor successor + 1 - first =
      omega (arith, crop_bounds source predecessor successor h b i) in
    rw
      (
        has.front,
        drop-take first predecessor.bytes_downloaded (drop predecessor.range.start source),
        drop-drop first predecessor.range.start source,
        behind,
        take-take (last_kept predecessor successor + 1 - first)
            (predecessor.bytes_downloaded - first) (drop successor.range.start source),
        size,
      )
      (elim (Option-cases successor.range.end) [
        | inl open_end ↦
            take_all (last_kept predecessor successor + 1 - first)
              (drop successor.range.start source)
              (ground (arith, length-drop successor.range.start source))
            ∙ sym (slice_open successor.range.start successor.range.end source open_end)
        | inr (e, closed) ↦
            let k : last_kept predecessor successor + 1 - first ≡ e + 1 - successor.range.start =
              ground arith in
            rw k (sym (slice_closed successor.range.start e successor.range.end source closed))
      ])

-- The crop to the two ends, and what follows it.
abbrev crops_to : (storage : FileStorage) → Both storage → ℤ → ℤ → Result ChunkRange × Both storage
crops_to storage both first last =
    after_crop storage both
      (storage.crop_file both.predecessor.chunk_file_name first last both.files)

succeed_passes :
    (storage : FileStorage) (both : Both storage)
    → both.predecessor.limit_qt_bytes ≤ both.predecessor.bytes_downloaded
    → 0 < both.predecessor.bytes_downloaded
    → succeed storage both
      ≡ crops_to storage both
          (start_crop both.predecessor both.successor)
          (end_crop both.predecessor both.successor)
succeed_passes storage both limit bytes =
    let e : lacks_data both.predecessor ≡ false = ground arith in rw e refl

succeed-completes :
    (storage : FileStorage) (both : Both storage) (file : Bytes) (first last : ℕ)
    → both.predecessor.limit_qt_bytes ≤ both.predecessor.bytes_downloaded
    → 0 < both.predecessor.bytes_downloaded
    → start_crop both.predecessor both.successor ≡ pos first
    → end_crop both.predecessor both.successor ≡ pos last
    → first ≤ last
    → last < length file
    → storage.content both.files both.predecessor.chunk_file_name ≡ some file
    → (files : storage.State) × (succeed storage both
        ≡ completes storage (record both { files = files }))
      × ((key : Text)
          → storage.content files key
            ≡ put both.successor.chunk_file_name
                (some (take (last + 1 - first) (drop first file)))
                (put both.predecessor.chunk_file_name none (storage.content both.files))
                key)
succeed-completes storage both file first last limit bytes es ee order inside e =
    let from = both.predecessor.chunk_file_name in
    let to = both.successor.chunk_file_name in
    let cut = take (last + 1 - first) (drop first file) in
    let (cropped, content1) =
      storage.crop_file_law from first last both.files file e order inside in
    let files1 = (storage.crop_file from (pos first) (pos last) both.files).1 in
    let (moved, content2) =
      storage.move_data_law from to files1 cut
        (content1 from ∙ put_self from (some cut) (storage.content both.files)) in
    (
      (storage.move_data from to files1).1,
      succeed_passes storage both limit bytes
          ∙ (ap (λ z. crops_to storage both z (end_crop both.predecessor both.successor)) es
              ∙ (ap (λ z. crops_to storage both (pos first) z) ee
                  ∙ (ap (λ r. after_crop storage both (r, files1)) cropped
                      ∙ ap (λ r. after_move storage both (r, (storage.move_data from to files1).1))
                          moved))),
      λ key. ground (arith, content2 key, content1 key),
    )

run-succeeds :
    (storage : FileStorage) (waited : Waited) (both : Both storage)
    → IsUsable waited
    → both.successor.status ≡ awaiting_succession
    → run_chunk_succession storage waited both ≡ succeed storage both
unfolding run_chunk_succession
run-succeeds storage no_task both u a = ground (arith, a)
run-succeeds storage returned both u a = ground (arith, a)
run-succeeds storage task_cancelled both u a = ground (arith, a)
run-succeeds storage (interrupted task) both u a = absurd u
run-succeeds storage (task_failed e) both u a = absurd u

-- A successor that waits takes over from a predecessor whose task ended, or was cancelled, after its
-- limit was reached. If the predecessor's file holds the front of its range of the source, and the
-- successor's range lies in it, the succession returns the range, the successor is completed and the
-- predecessor deprecated. The successor's file then holds exactly its range of the source, the
-- predecessor's is gone if it had another name, and no other file has changed.
pub run_chunk_succession-completes :
    (storage : FileStorage) (waited : Waited) (both : Both storage) (source file : Bytes)
    → IsUsable waited
    → both.successor.status ≡ awaiting_succession
    → both.predecessor.limit_qt_bytes ≤ both.predecessor.bytes_downloaded
    → 0 < both.predecessor.bytes_downloaded
    → both.predecessor.range.start ≤ both.successor.range.start
    → IsInside source both.predecessor both.successor
    → storage.content both.files both.predecessor.chunk_file_name ≡ some file
    → HasDownloaded source both.predecessor file
    → let (r, after) = run_chunk_succession storage waited both in
      (r ≡ ok both.successor.range)
      × (after.successor.status ≡ completed)
      × (after.predecessor.status ≡ deprecated)
      × ((key : Text)
          → storage.content after.files key
            ≡ put both.successor.chunk_file_name
                (some (slice both.successor.range source))
                (put both.predecessor.chunk_file_name none (storage.content both.files))
                key)
run_chunk_succession-completes storage waited both source file u a limit bytes order inside e has =
    let first = both.successor.range.start - both.predecessor.range.start in
    let last = last_kept both.predecessor both.successor in
    let (es, ee, le, lt) = crop_bounds source both.predecessor both.successor order bytes inside in
    let (files, eq, content) =
      succeed-completes storage both file first last limit bytes es ee le
        (omega (arith, has.counted, lt)) e in
    let cut = kept-slice source file both.predecessor both.successor has order bytes inside in
    rw (run-succeeds storage waited both u a, eq, ← cut) (refl, refl, refl, content)
