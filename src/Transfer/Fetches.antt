-- ===== src/Transfer/Fetches.antt =====
-- What the task of a chunk leaves, if the server honours byte ranges.
use sdownload.Prelude.{
  ℕ, ◌+◌, ◌-◌, ◌≤◌, ◌<◌, ◌≡◌, false, Option, none, some, refl, ap, ◌∙◌, length, drop, concat, arith,
  length-take, length-drop,
}
use sdownload.Prelude.Int.{pos}
use sdownload.Models.Text.{Text}
use sdownload.Models.Range.{ChunkRange}
use sdownload.Exceptions.{Result}
use sdownload.Storage.Protocol.{Bytes, FileStorage, put}
use sdownload.Stats.{ChunkDownloadStats, pending, completed}
use sdownload.Ranges.Split.{after_cached}
use sdownload.Chunks.{format_chunk_file_name, get_effective_range_info}
use sdownload.Chunks.Slices.{slice}
use sdownload.Chunks.Download.{is_wrong_size}
use sdownload.Chunks.Supervised.{
  download_chunk_supervised-completes, download_chunk_supervised-keeps,
}
use sdownload.Manager.{ChunkManager, registered_stats}
use sdownload.HttpClient.Downloader.{ByteResponse}
use sdownload.HttpClient.Downloader.Serves.{Honours, bytes_of, IsValidEnd, download_chunk-bytes_of}
use sdownload.Transfer.{fetch, raw_stream}

-- A range that is not empty and lies in a file of `n` bytes.
abbrev pub IsWithin : ℕ → ChunkRange → Type 0
IsWithin n r = (r.start < after_cached n r) × (after_cached n r ≤ n)

pub ends-size :
    (start : ℕ) (end : Option ℕ) (source : Bytes)
    → IsWithin (length source) (record { start = start; end = end })
    → is_wrong_size
        (length (slice (record { start = start; end = end }) source))
        (get_effective_range_info
          (record { start = start; end = end })
          (some (pos (length source)))).1
      ≡ false
unfolding get_effective_range_info
ends-size start none source (h, k) = rw (length-drop start source) (ground arith)
ends-size start (some e) source (h, k) =
    rw (length-take (e + 1 - start) (drop start source), length-drop start source) (ground arith)

ends-bytes_of :
    (start : ℕ) (end : Option ℕ) (source : Bytes)
    → bytes_of source start end ≡ slice (record { start = start; end = end }) source
ends-bytes_of start none source = refl
ends-bytes_of start (some e) source = refl

ends-IsValidEnd :
    (n start : ℕ) (end : Option ℕ)
    → IsWithin n (record { start = start; end = end })
    → IsValidEnd start end
ends-IsValidEnd n start none h = ground arith
ends-IsValidEnd n start (some e) (h, k) = omega arith

ends-inside :
    (n start : ℕ) (end : Option ℕ) → IsWithin n (record { start = start; end = end }) → start < n
ends-inside n start end (h, k) = omega (arith, h, k)

-- The stream of a chunk's task, if the server honours byte ranges.
pub raw_stream-slice :
    (server : Option Text → Result ByteResponse) (source : Bytes) (etag : Text) (r : ChunkRange)
    → Honours source etag server
    → IsWithin (length source) r
    → (concat (raw_stream server r).pieces ≡ slice r source)
      × ((raw_stream server r).failure ≡ none)
raw_stream-slice server source etag r honours within =
    let (bytes, fine) =
      download_chunk-bytes_of source etag server r.start r.end none honours
        (ends-IsValidEnd (length source) r.start r.end within)
        (ends-inside (length source) r.start r.end within) refl in
    (bytes ∙ ends-bytes_of r.start r.end source, fine)

module _ (storage : FileStorage) (server : Option Text → Result ByteResponse) (now : ℕ)
    (source : Bytes) (etag : Text) (honours : Honours source etag server) (self : ChunkManager)
    (known : self.file_size ≡ some (pos (length source))) (target : Option ℕ) where
  -- The stats of a chunk that the manager starts.
  abbrev pub started : ChunkRange → ChunkDownloadStats
  started r = registered_stats r target pending now self

  -- What the task of the chunk leaves: it is completed, and its file has its bytes of the source.
  pub fetch-slice :
      (r : ChunkRange) (s : storage.State)
      → IsWithin (length source) r
      → let (result, after, s1) = fetch storage server now (started r) s in
        (after.status ≡ completed)
        × (after.range ≡ r)
        × (after.chunk_file_name ≡ format_chunk_file_name r self.file_name)
        × ((key : Text)
            → storage.content s1 key
              ≡ put
                  (format_chunk_file_name r self.file_name)
                  (some (slice r source))
                  (storage.content s)
                  key)
  fetch-slice r s within =
      let (same, fine) = raw_stream-slice server source etag r honours within in
      let bare : 0 + length (slice r source) ≡ length (slice r source) = omega arith in
      let size : is_wrong_size (0 + length (concat (raw_stream server r).pieces))
            (started r).file_size
          ≡ false =
        rw (same, known, bare) (ends-size r.start r.end source within) in
      let (result, done, count, content) =
        download_chunk_supervised-completes storage (raw_stream server r) now (started r) s fine
          size in
      let (range, name) =
        download_chunk_supervised-keeps storage (raw_stream server r) now (started r) s in
      (
        done,
        range,
        name,
        λ key.
            content key
            ∙ ap
                (λ b.
                  put (format_chunk_file_name r self.file_name) (some b) (storage.content s) key)
                same,
      )
