-- ===== src/Chunks/Supervised.antt =====
-- What a download leaves in the file of its chunk and in its counters.
use sdownload.Prelude.{
  leb, ℕ, ◌+◌, ◌≡◌, refl, ap, ◌∙◌, false, none, some, List, [], ◌∷◌, map, length, concat,
  length-append, arith, inl, inr, Bool-cases,
}
use sdownload.Models.Range.{ChunkRange}
use sdownload.Models.Text.{Text}
use sdownload.Exceptions.{cancelled_error, Result, ok, err}
use sdownload.Storage.Protocol.{Bytes, Stream, FileStorage, put, put_self}
use sdownload.Stats.{
  ChunkDownloadStats, completed, downloading, add_by, Adder, no_limit, with_limit,
}
use sdownload.Stats.Observer.{add_pieces, total}
use sdownload.Chunks.Download.{
  is_wrong_size, check_size, after_save, counted, download_chunk_supervised,
}

total-length :
    (pieces : List Bytes) → total (map (λ (b : Bytes). length b) pieces) ≡ length (concat pieces)
total-length [] = refl
total-length (b ∷ pieces) = omega (arith, total-length pieces, length-append b (concat pieces))

-- What counting a piece leaves as it was.
pub record Keeps (a b : ChunkDownloadStats) (n : ℕ) : Type 0 where
  pub bytes : b.bytes_downloaded ≡ a.bytes_downloaded + n
  pub size : b.file_size ≡ a.file_size
  pub range : b.range ≡ a.range
  pub name : b.chunk_file_name ≡ a.chunk_file_name

pub add_by-Keeps :
    (adder : Adder) (n : ℕ) (stats : ChunkDownloadStats) → Keeps stats (add_by adder n stats).0 n
add_by-Keeps no_limit n stats = record { bytes = refl; size = refl; range = refl; name = refl }
add_by-Keeps with_limit n stats =
    elim (Bool-cases (leb stats.limit_qt_bytes (stats.bytes_downloaded + n))) [
      | inl reached ↦ rw reached (record { bytes = refl; size = refl; range = refl; name = refl })
      | inr below ↦ rw below (record { bytes = refl; size = refl; range = refl; name = refl })
    ]

add_pieces-Keeps :
    (ns : List ℕ) (stats : ChunkDownloadStats) → Keeps stats (add_pieces ns stats).0 (total ns)
add_pieces-Keeps [] stats = record { bytes = omega arith; size = refl; range = refl; name = refl }
add_pieces-Keeps (n ∷ ns) stats =
    let one = add_by-Keeps stats.adder n stats in
    let more = add_pieces-Keeps ns (add_by stats.adder n stats).0 in
    record {
      bytes = omega (arith, one.bytes, more.bytes);
      size = more.size ∙ one.size;
      range = more.range ∙ one.range;
      name = more.name ∙ one.name;
    }

counted-Keeps :
    (stream : Stream) (stats : ChunkDownloadStats)
    → Keeps stats (counted stream stats) (length (concat stream.pieces))
counted-Keeps stream stats =
    let k =
      add_pieces-Keeps (map (λ (b : Bytes). length b) stream.pieces)
        (record stats { status = downloading }) in
    record {
      bytes = k.bytes ∙ ap (λ n. stats.bytes_downloaded + n) (total-length stream.pieces);
      size = k.size;
      range = k.range;
      name = k.name;
    }

-- A stream that ends well, with as many bytes as are expected, if that is known: the download returns
-- the range, the chunk is completed and has counted every byte, its file has what the stream yielded,
-- and no other file has changed.
pub download_chunk_supervised-completes :
    (storage : FileStorage) (stream : Stream) (now : ℕ) (stats : ChunkDownloadStats)
    (s : storage.State)
    → stream.failure ≡ none
    → is_wrong_size (stats.bytes_downloaded + length (concat stream.pieces)) stats.file_size ≡ false
    → let (r, after, s1) = download_chunk_supervised storage stream now stats s in
      (r ≡ ok stats.range)
      × (after.status ≡ completed)
      × (after.bytes_downloaded ≡ stats.bytes_downloaded + length (concat stream.pieces))
      × ((key : Text)
          → storage.content s1 key
            ≡ put stats.chunk_file_name (some (concat stream.pieces)) (storage.content s) key)
unfolding download_chunk_supervised
download_chunk_supervised-completes storage stream now stats s fine size =
    let k = counted-Keeps stream stats in
    let right : is_wrong_size (counted stream stats).bytes_downloaded
          (counted stream stats).file_size
        ≡ false =
      rw (k.bytes, k.size) size in
    rw (storage.save_binary_data-result stats.chunk_file_name stream s fine, right)
      (ap ok k.range, refl, k.bytes, storage.save_binary_data_law stats.chunk_file_name stream s)

-- A download that returns was of the expected size, if that is known.
check_size-ok :
    (stats : ChunkDownloadStats) (r : ChunkRange)
    → (check_size stats).0 ≡ ok r
    → ((check_size stats).1.status ≡ completed)
      × (is_wrong_size (check_size stats).1.bytes_downloaded (check_size stats).1.file_size ≡ false)
check_size-ok stats r e = elim (Bool-cases (is_wrong_size stats.bytes_downloaded stats.file_size)) [
  | inl wrong ↦ absurd (cc (rw wrong at e))
  | inr right ↦ rw right (refl, right)
]

after_save-ok :
    (stats : ChunkDownloadStats) (saved : Result (Unit {0})) (r : ChunkRange)
    → (after_save stats saved).0 ≡ ok r
    → ((after_save stats saved).1.status ≡ completed)
      × (is_wrong_size
            (after_save stats saved).1.bytes_downloaded
            (after_save stats saved).1.file_size
          ≡ false)
after_save-ok stats (ok u) r e = check_size-ok stats r e
after_save-ok stats (err cancelled_error) r e = absurd (cc e)
after_save-ok stats (err _) r e = absurd (cc e)

-- Whatever the stream and the storage did, a download that returns leaves its chunk completed, with as
-- many bytes counted as the chunk has, if that is known; its file has what the stream yielded.
pub download_chunk_supervised-ok :
    (storage : FileStorage) (stream : Stream) (now : ℕ) (stats : ChunkDownloadStats)
    (s : storage.State) (r : ChunkRange)
    → (download_chunk_supervised storage stream now stats s).0 ≡ ok r
    → let (_, after, s1) = download_chunk_supervised storage stream now stats s in
      (after.status ≡ completed)
      × (is_wrong_size after.bytes_downloaded after.file_size ≡ false)
      × (storage.content s1 stats.chunk_file_name ≡ some (concat stream.pieces))
unfolding download_chunk_supervised
download_chunk_supervised-ok storage stream now stats s r e =
    let saved = (storage.save_binary_data stats.chunk_file_name stream s).0 in
    let (c, w) = after_save-ok (counted stream stats) saved r e in
    (
      c,
      w,
      storage.save_binary_data_law stats.chunk_file_name stream s stats.chunk_file_name
          ∙ put_self stats.chunk_file_name (some (concat stream.pieces)) (storage.content s),
    )

check_size-keeps :
    (stats : ChunkDownloadStats)
    → ((check_size stats).1.range ≡ stats.range)
      × ((check_size stats).1.chunk_file_name ≡ stats.chunk_file_name)
check_size-keeps stats = elim (Bool-cases (is_wrong_size stats.bytes_downloaded stats.file_size)) [
  | inl wrong ↦ rw wrong (refl, refl)
  | inr right ↦ rw right (refl, refl)
]

after_save-keeps :
    (stats : ChunkDownloadStats) (saved : Result (Unit {0}))
    → ((after_save stats saved).1.range ≡ stats.range)
      × ((after_save stats saved).1.chunk_file_name ≡ stats.chunk_file_name)
after_save-keeps stats (ok u) = check_size-keeps stats
after_save-keeps stats (err cancelled_error) = (refl, refl)
after_save-keeps stats (err _) = (refl, refl)

-- However a download ends, its stats keep their range and the name of the file.
pub download_chunk_supervised-keeps :
    (storage : FileStorage) (stream : Stream) (now : ℕ) (stats : ChunkDownloadStats)
    (s : storage.State)
    → let (r, after, s1) = download_chunk_supervised storage stream now stats s in
      (after.range ≡ stats.range) × (after.chunk_file_name ≡ stats.chunk_file_name)
unfolding download_chunk_supervised
download_chunk_supervised-keeps storage stream now stats s =
    let saved = (storage.save_binary_data stats.chunk_file_name stream s).0 in
    let k = counted-Keeps stream stats in
    let (same, name) = after_save-keeps (counted stream stats) saved in
    (same ∙ k.range, name ∙ k.name)
