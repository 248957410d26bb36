-- ===== src/Tests/Files.antt =====
-- Local files: merges, crops and reads of small files with small buffers.
use sdownload.Prelude.{◌≡◌, refl, none, some, List, [], ◌∷◌, take, drop, arith, if◌then◌else◌}
use sdownload.Prelude.Int.{pos}
use sdownload.Prelude.Dict.{lookup}
use sdownload.Models.Text.{Text, codes, text_beq, text_eq}
use sdownload.Exceptions.{ok}
use sdownload.Storage.Protocol.{FileRangeParams, Does, put}
use sdownload.Storage.Local.{Files, merge_ranges, crop_file, crop_in_place, move_data}
use sdownload.Storage.Local.Crop.{crop_in_place-eq}
use sdownload.Storage.Local.Merge.{merge_ranges-eq}
use sdownload.Storage.Local.Laws.{content, crop_file-Does, move_data-Does}
use sdownload.Tests.Downloads.{source}

abbrev two_files : Files
two_files = (codes "a", take 6 source) ∷ (codes "b", drop 4 source) ∷ []

abbrev two_parts : List FileRangeParams
two_parts =
    record { key = codes "a"; start_byte = some 1; end_byte = some 3 }
    ∷ record { key = codes "b"; start_byte = none; end_byte = none }
    ∷ []

merge_ranges-eq_example :
    ((merge_ranges 2 two_parts (codes "c") two_files).0 ≡ ok tt)
    × ((key : Text)
        → lookup key (merge_ranges 2 two_parts (codes "c") two_files).1
          ≡ (if text_beq (codes "c") key then some (drop 1 source) else lookup key two_files))
merge_ranges-eq_example =
    merge_ranges-eq 2 two_parts (codes "c") two_files (drop 1 source) (omega arith)
      (refl, (refl, tt))
      (
        take 6 source,
        refl,
        omega arith,
        drop 4 source,
        refl,
        (drop 4 source, refl, tt, [], refl, refl),
      )

crop_in_place-eq_example : crop_in_place 3 2 7 source ≡ take 7 (drop 2 source)
crop_in_place-eq_example = crop_in_place-eq 3 2 7 source (omega arith) (omega arith)

crop_file-Does_example :
    Does content
      (put (codes "a") (some (12 ∷ 13 ∷ 14 ∷ [])) (content two_files))
      (crop_file 2 (codes "a") (pos 2) (pos 4) two_files)
crop_file-Does_example =
    crop_file-Does 2 (codes "a") 2 4 two_files (take 6 source) (omega arith) refl (omega arith)
      (omega arith)

move_data-Does_example :
    Does content
      (put (codes "b") (some (take 6 source)) (put (codes "a") none (content two_files)))
      (move_data (codes "a") (codes "b") two_files)
move_data-Does_example = move_data-Does (codes "a") (codes "b") two_files (take 6 source) refl
