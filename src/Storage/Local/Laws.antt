-- ===== src/Storage/Local/Laws.antt =====
-- `LocalStorage` implements the storage protocol.
use sdownload.Storage.Local.Reads.{get_binary_data-reads}
use sdownload.Prelude.{
  ◌∙◌, sym, zero, ap, take_all, leb, Option, suc, Bool-cases, ℕ, ◌≡◌, refl, ◌<◌, ◌≤◌, ◌+◌, ◌-◌,
  length, take, drop, arith, none, some, Option-cases, inl, inr, concat, List, [], ◌∷◌,
}
use sdownload.Prelude.Int.{pos}
use sdownload.Prelude.Dict.{lookup, insert, erase, lookup-insert, lookup-erase}
use sdownload.Models.Text.{text_beq_iff, text_beq, Text, text_eq}
use sdownload.Storage.Protocol.{is_file, is_listed, Parts, IsAway, Bytes, FileStorage, Does, put}
use sdownload.Storage.Local.{
  Stream, FileRangeParams, ok, Files, get_binary_data, save_binary_data, delete_data, list_data,
  get_data_info, move_data, merge_ranges, shrink_file_to, crop_in_place, crop_file,
}
use sdownload.Storage.Local.Crop.{crop_in_place-eq}
use sdownload.Storage.Local.Merge.{merge_ranges-eq}

abbrev pub content : Files → Text → Option Bytes
content files key = lookup key files

-- To give a file what it has changes nothing.
put_same :
    (key : Text) (file : Option Bytes) (before : Text → Option Bytes) (k : Text)
    → before key ≡ file
    → before k ≡ put key file before k
put_same key file before k e = elim (Bool-cases (text_beq key k)) [
  | inl same ↦ rw same (ap before (sym ((text_beq_iff key k).0 same)) ∙ e)
  | inr other ↦ rw other
]

pub move_data-Does :
    (source dest : Text) (files : Files) (b : Bytes)
    → lookup source files ≡ some b
    → Does content
        (put dest (some b) (put source none (content files)))
        (move_data source dest files)
unfolding move_data
move_data-Does source dest files b e =
    rw (e, move_data)
      (
        refl,
        λ k.
            ground
              (arith, lookup-insert dest k b (erase source files), lookup-erase source k files),
      )

pub delete_data-content :
    (key : Text) (files : Files) (k : Text)
    → content (delete_data key files).1 k ≡ put key none (content files) k
unfolding delete_data
delete_data-content key files k = elim (Option-cases (lookup key files)) [
  | inl e ↦ rw (e, delete_data) (put_same key none (content files) k e)
  | inr (b, e) ↦ rw (e, delete_data) (lookup-erase key k files)
]

shrink_file_to-Does :
    (key : Text) (size : ℕ) (files : Files) (b : Bytes)
    → lookup key files ≡ some b
    → Does content (put key (some (take size b)) (content files)) (shrink_file_to key size files)
unfolding shrink_file_to
shrink_file_to-Does key size files b e = elim (Bool-cases (leb (length b) size)) [
  | inl small ↦
      rw (e, small, shrink_file_to)
        (
          refl,
          λ k.
              put_same key (some (take size b)) (content files) k
                (e ∙ ap some (sym (take_all size b (ground (arith, small))))),
        )
  | inr big ↦
      rw (e, big, shrink_file_to)
        (refl, λ k. ground (arith, lookup-insert key k (take size b) files))
]

crop_file-front :
    (buffer : ℕ) (key : Text) (last : ℕ) (files : Files) (b : Bytes)
    → lookup key files ≡ some b
    → last < length b
    → crop_file buffer key (pos 0) (pos last) files ≡ shrink_file_to key (last + 1) files
unfolding crop_file
crop_file-front buffer key last files b e k = rw (e, crop_file) (ground arith)

crop_file-inside :
    (buffer : ℕ) (key : Text) (first last : ℕ) (files : Files) (b : Bytes)
    → 0 < buffer
    → lookup key files ≡ some b
    → suc first ≤ last
    → last < length b
    → crop_file buffer key (pos (suc first)) (pos last) files
      ≡ (ok tt, insert key (crop_in_place buffer (suc first) (last - first) b) files)
unfolding crop_file
crop_file-inside buffer key first last files b hb e h k = rw (e, crop_file) (ground arith)

-- With a buffer above 0, and a range from `first` to `last` of bytes that the file has, `crop_file`
-- succeeds, makes the file the bytes of the range, and changes no other file.
pub crop_file-Does :
    (buffer : ℕ) (key : Text) (first last : ℕ) (files : Files) (b : Bytes)
    → 0 < buffer
    → lookup key files ≡ some b
    → first ≤ last
    → last < length b
    → Does content
        (put key (some (take (last + 1 - first) (drop first b))) (content files))
        (crop_file buffer key (pos first) (pos last) files)
unfolding crop_file
crop_file-Does buffer key zero last files b hb e h k =
    let size : last + 1 - 0 ≡ last + 1 = omega arith in
    rw (crop_file-front buffer key last files b e k, size)
      (shrink_file_to-Does key (last + 1) files b e)
crop_file-Does buffer key (suc first) last files b hb e h k =
    let cropped = crop_in_place-eq buffer (suc first) (last - first) b hb (omega arith) in
    let size : last + 1 - suc first ≡ last - first = omega arith in
    rw (crop_file-inside buffer key first last files b hb e h k, cropped, size)
      (refl, λ k. lookup-insert key k (take (last - first) (drop (suc first) b)) files)

pub merge_ranges-Does :
    (buffer : ℕ) (configs : List FileRangeParams) (dest : Text) (files : Files) (bytes : Bytes)
    → 0 < buffer
    → IsAway dest configs
    → Parts (content files) configs bytes
    → Does content (put dest (some bytes) (content files)) (merge_ranges buffer configs dest files)
merge_ranges-Does buffer configs dest files bytes hb away parts =
    merge_ranges-eq buffer configs dest files bytes hb away parts

pub list_data-lists :
    (key : Text) (files : Files) → is_listed key (list_data files) ≡ is_file (content files key)
unfolding list_data
list_data-lists key [] = refl
list_data-lists key ((k, file) ∷ files) = ground (arith, list_data-lists key files)

pub get_data_info-eq :
    (key : Text) (files : Files)
    → get_data_info key files ≡ elim (content files key) [
      | none ↦ none
      | some b ↦ some (record { key = key; size_bytes = length b })
    ]
unfolding get_data_info
get_data_info-eq key files = refl

pub save_binary_data-content :
    (key : Text) (stream : Stream) (files : Files) (k : Text)
    → content (save_binary_data key stream files).1 k
      ≡ put key (some (concat stream.pieces)) (content files) k
unfolding save_binary_data
save_binary_data-content key stream files k = lookup-insert key k (concat stream.pieces) files

pub save_binary_data-ok :
    (key : Text) (stream : Stream) (files : Files)
    → stream.failure ≡ none
    → (save_binary_data key stream files).0 ≡ ok tt
unfolding save_binary_data
save_binary_data-ok key stream files e = rw (e, save_binary_data) refl

pub delete_data-ok :
    (key : Text) (files : Files) (b : Bytes)
    → content files key ≡ some b
    → (delete_data key files).0 ≡ ok tt
unfolding delete_data
delete_data-ok key files b e = rw (e, delete_data) refl

-- `LocalStorage` with its two sizes, which are positive in every configuration.
abbrev pub local_storage :
    (chunk_size io_buffer_size : ℕ) → 0 < chunk_size → 0 < io_buffer_size → FileStorage
local_storage chunk buffer hc hb = record {
  State = Files;
  content = content;
  get_binary_data = get_binary_data chunk;
  save_binary_data = save_binary_data;
  delete_data = delete_data;
  list_data = list_data;
  get_data_info = get_data_info;
  move_data = move_data;
  merge_ranges = merge_ranges buffer;
  crop_file = crop_file buffer;
  get_data_info_law = get_data_info-eq;
  list_data_law = list_data-lists;
  get_binary_data_law = λ key files b e. get_binary_data-reads chunk key files b hc e;
  save_binary_data_law = save_binary_data-content;
  save_binary_data-result = save_binary_data-ok;
  delete_data_law = delete_data-content;
  delete_data-result = delete_data-ok;
  move_data_law = move_data-Does;
  crop_file_law =
      λ key first last files b e h k. crop_file-Does buffer key first last files b hb e h k;
  merge_ranges_law = λ configs dest files bytes away parts.
      merge_ranges-Does buffer configs dest files bytes hb away parts;
}
