-- ===== src/Storage/Local.antt =====
-- file_system/local_storage.py: the operations of `LocalStorage` on the files of one directory. A
-- file is its bytes; what the operating system may refuse beyond a missing file is not modelled.
pub mod Crop
pub mod Merge
pub mod Reads
pub mod Laws
use sdownload.Storage.Protocol.{Bytes, Stream, StoredFileInfo, FileRangeParams, start_of}
use sdownload.Prelude.{
  ℕ, zero, suc, ◌+◌, ◌-◌, ◌*◌, ◌/◌, ◌%◌, min, Bool, true, false, ◌||◌, Option, none, some, List, [],
  ◌∷◌, ◌++◌, leb, ltb, ◌==◌, if◌then◌else◌, take, drop, length, concat, map,
}
use sdownload.Prelude.Int.{ℤ, pos, pos_part, ◌-ℤ◌, ◌+ℤ◌, ltb_ℤ, leb_ℤ}
use sdownload.Prelude.Dict.{Dict, lookup, insert, erase}
use sdownload.Models.Text.{Text, text_eq}
use sdownload.Exceptions.{
  Exc, Result, ok, err, map_os_error, value_error, zero_division_error, file_not_found_error,
  storage_not_found_error,
}

abbrev pub Files : Type 0
Files = Dict Text Bytes

-- The `while True` loop of `get_binary_data`.
pub read_pieces : ℕ → ℕ → Bytes → List Bytes
read_pieces zero chunk_size rest = []
read_pieces (suc fuel) chunk_size rest =
    let more = read_pieces fuel chunk_size (drop chunk_size rest) in
    elim (take chunk_size rest) [ [] ↦ [] | b ∷ bs ↦ (b ∷ bs) ∷ more ]

pub get_binary_data : ℕ → Text → Files → Stream
unfolding read_pieces map_os_error
get_binary_data chunk_size key files = elim (lookup key files) [
  | none ↦ record { pieces = []; failure = some (map_os_error storage_not_found_error) }
  | some file ↦ record { pieces = read_pieces (suc (length file)) chunk_size file; failure = none }
]

-- The file is opened for writing at once, and keeps what came before a failure.
unfoldable pub save_binary_data : Text → Stream → Files → Result (Unit {0}) × Files
unfolding map_os_error
save_binary_data key stream files = (
  elim stream.failure [ none ↦ ok tt | some e ↦ err (map_os_error e) ],
  insert key (concat stream.pieces) files,
)

unfoldable pub delete_data : Text → Files → Result (Unit {0}) × Files
unfolding map_os_error
delete_data key files = elim (lookup key files) [
  | none ↦ (err (map_os_error file_not_found_error), files)
  | some file ↦ (ok tt, erase key files)
]

unfoldable pub list_data : Files → List StoredFileInfo
list_data [] = []
list_data ((k, file) ∷ files) = record { key = k; size_bytes = length file } ∷ list_data files

unfoldable pub get_data_info : Text → Files → Option StoredFileInfo
get_data_info key files = elim (lookup key files) [
  | none ↦ none
  | some file ↦ some (record { key = key; size_bytes = length file })
]

unfoldable pub move_data : Text → Text → Files → Result (Unit {0}) × Files
unfolding map_os_error
move_data source_key dest_key files = elim (lookup source_key files) [
  | none ↦ (err (map_os_error storage_not_found_error), files)
  | some file ↦ (ok tt, insert dest_key file (erase source_key files))
]

unfoldable pub shrink_file_to : Text → ℕ → Files → Result (Unit {0}) × Files
unfolding map_os_error
shrink_file_to key target_size_bytes files = elim (lookup key files) [
  | none ↦ (err (map_os_error storage_not_found_error), files)
  | some file ↦
      if leb (length file) target_size_bytes
      then (ok tt, files)
      else (ok tt, insert key (take target_size_bytes file) files)
]

-- `seek(pos)` and `read(n)`, `seek(pos)` and `write(data)`.
abbrev pub read_at : ℕ → ℕ → Bytes → Bytes
read_at p n file = take n (drop p file)

abbrev pub write_at : ℕ → Bytes → Bytes → Bytes
write_at p bytes file = take p file ++ (bytes ++ drop (p + length bytes) file)

-- The loop over the full blocks: the file, `write_pos` and `read_pos`.
pub copy_blocks : ℕ → ℕ → ℕ → ℕ → Bytes → Bytes × ℕ × ℕ
copy_blocks zero buffer write_pos read_pos file = (file, write_pos, read_pos)
copy_blocks (suc blocks) buffer write_pos read_pos file =
    copy_blocks blocks buffer (write_pos + buffer) (read_pos + buffer)
      (write_at write_pos (read_at read_pos buffer file) file)

-- What the blocks leave over, and the final `truncate`.
abbrev pub copy_rest : ℕ → ℕ → Bytes × ℕ × ℕ → Bytes
copy_rest remainder target_size (file, write_pos, read_pos) =
    take target_size
      (if ltb 0 remainder then write_at write_pos (read_at read_pos remainder file) file else file)

pub crop_in_place : ℕ → ℕ → ℕ → Bytes → Bytes
unfolding copy_blocks
crop_in_place buffer start_byte target_size file =
    copy_rest (target_size % buffer) target_size
      (copy_blocks (target_size / buffer) buffer 0 start_byte file)

unfoldable pub crop_file : ℕ → Text → ℤ → ℤ → Files → Result (Unit {0}) × Files
unfolding map_os_error shrink_file_to crop_in_place
crop_file io_buffer_size key start_byte end_byte files =
    let target_size = end_byte -ℤ start_byte +ℤ pos 1 in
    if ltb_ℤ target_size (pos 0)
      || ltb_ℤ end_byte (pos 0)
      || ltb_ℤ start_byte (pos 0)
      || ltb_ℤ end_byte start_byte
    then (err value_error, files)
    else elim (lookup key files) [
      | none ↦ (err (map_os_error storage_not_found_error), files)
      | some file ↦
          if leb_ℤ (pos (length file)) end_byte
          then (err (map_os_error value_error), files)
          else if pos_part start_byte == 0
          then shrink_file_to key (pos_part target_size) files
          else if io_buffer_size == 0
          then (err (map_os_error zero_division_error), files)
          else (
            ok tt,
            insert key
                (crop_in_place io_buffer_size (pos_part start_byte) (pos_part target_size) file)
                files,
          )
    ]

-- `read_size`, and `remaining_to_read` after a piece was written.
abbrev pub piece_size : ℕ → Option ℕ → ℕ
piece_size buffer none = buffer
piece_size buffer (some r) = if ltb r buffer then r else buffer

abbrev pub left_after : Option ℕ → ℕ → Option ℕ
left_after none written = none
left_after (some r) written = some (r - written)

abbrev pub is_done : Option ℕ → Bool
is_done none = false
is_done (some r) = r == 0

-- The copy loop of `merge_ranges`, on what is left of the source.
pub copy_range : ℕ → ℕ → Option ℕ → Bytes → Bytes
copy_range zero buffer remaining rest = []
copy_range (suc fuel) buffer remaining rest =
    let chunk = take (piece_size buffer remaining) rest in
    let left = left_after remaining (length chunk) in
    let more = copy_range fuel buffer left (drop (piece_size buffer remaining) rest) in
    elim chunk [ [] ↦ [] | b ∷ bs ↦ (b ∷ bs) ++ (if is_done left then [] else more) ]

-- One source of a merge: its bytes, or the exception that it raises.
pub read_source : ℕ → FileRangeParams → Files → Result Bytes
unfolding copy_range
read_source buffer config files = elim (lookup config.key files) [
  | none ↦ err file_not_found_error
  | some file ↦
      let rest = drop (start_of config) file in
      elim config.end_byte [
        | none ↦ ok (copy_range (suc (length rest)) buffer none rest)
        | some e ↦
            if ltb (e + 1) (start_of config)
            then err value_error
            else ok (copy_range (suc (length rest)) buffer (some (e + 1 - start_of config)) rest)
      ]
]

-- The loop over the sources: what was written, and how it ended.
pub merge_sources : ℕ → List FileRangeParams → Files → Bytes → Result (Unit {0}) × Bytes
unfolding read_source
merge_sources buffer [] files written = (ok tt, written)
merge_sources buffer (config ∷ configs) files written = elim (read_source buffer config files) [
  | ok bytes ↦ merge_sources buffer configs files (written ++ bytes)
  | err e ↦ (err e, written)
]

abbrev pub mapped : Result (Unit {0}) → Result (Unit {0})
unfolding map_os_error
mapped (ok u) = ok u
mapped (err e) = err (map_os_error e)

-- The destination is opened, and so emptied, first; a failed merge leaves what was written.
unfoldable pub merge_ranges : ℕ → List FileRangeParams → Text → Files → Result (Unit {0}) × Files
unfolding map_os_error merge_sources
merge_ranges io_buffer_size configs dest_key files =
    let opened = insert dest_key [] files in
    let (r, written) = merge_sources io_buffer_size configs opened [] in
    (mapped r, insert dest_key written opened)

-- `merge_binary_files`
unfoldable pub merge_binary_files : ℕ → List Text → Text → Files → Result (Unit {0}) × Files
unfolding merge_ranges
merge_binary_files io_buffer_size source_keys dest_key files =
    merge_ranges io_buffer_size
      (map (λ k. record { key = k; start_byte = none; end_byte = none }) source_keys) dest_key files
