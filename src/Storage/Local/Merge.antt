-- ===== src/Storage/Local/Merge.antt =====
-- A merge writes the requested parts of its sources one after another.
use native.Mathlib.Decide.{dec_le}
use sdownload.Storage.Local.{
  piece_size, left_after, is_done, Files, copy_range, read_source, merge_sources, merge_ranges,
}
use sdownload.Storage.Protocol.{Bytes, FileRangeParams, start_of, part, IsRange, Parts, IsAway}
use sdownload.Prelude.{
  subst, lt→ltb, Option-cases, List-cases, if◌then◌else◌, ℕ, zero, suc, ◌+◌, ◌-◌, ◌≤◌, ◌<◌, ◌≡◌,
  refl, ap, sym, ◌∙◌, Option, none, some, List, [], ◌∷◌, ◌++◌, take, drop, length, arith,
  length-take, length-drop, take_all, drop_all, take-add, take-append-drop, inl, inr, ◌==◌,
  append-nil, append_assoc,
}
use sdownload.Prelude.Dict.{lookup, insert, lookup-insert}
use sdownload.Models.Text.{Text, text_eq, text_beq}
use sdownload.Exceptions.{ok}

take_split :
    (n r : ℕ) (rest : Bytes)
    → n ≤ r
    → take n rest ++ take (r - length (take n rest)) (drop n rest) ≡ take r rest
take_split n r rest h = elim (dec_le n (length rest)) [
  | yes inside ↦
      let e : length (take n rest) ≡ n = omega (arith, length-take n rest) in
      let whole : n + (r - n) ≡ r = omega arith in
      rw e (sym (take-add n (r - n) rest) ∙ ap (λ k. take k rest) whole)
  | no short ↦
      rw
        (
          take_all n rest (omega arith),
          drop_all n rest (omega arith),
          take_all r rest (omega arith),
        )
        (ap (λ t. rest ++ t) (take_all (r - length rest) [] (omega arith)) ∙ append-nil rest)
]

-- To the end of the source.
copy_range-none :
    (fuel b : ℕ) (rest : Bytes) → length rest < fuel → copy_range fuel (suc b) none rest ≡ rest
unfolding copy_range
copy_range-none zero b rest h = absurd (omega arith)
copy_range-none (suc fuel) b [] h = refl
copy_range-none (suc fuel) b (x ∷ xs) h =
    rw (copy_range-none fuel b (drop b xs) (omega (arith, length-drop b xs)))
      (ap (λ t. x ∷ t) (take-append-drop b xs))

-- Nothing is left of the source, or of the range.
copy_range_empty :
    (fuel buffer : ℕ) (rem : Option ℕ) (rest : Bytes)
    → take (piece_size buffer rem) rest ≡ []
    → copy_range (suc fuel) buffer rem rest ≡ []
unfolding copy_range
copy_range_empty fuel buffer rem rest h = rw (h, copy_range)

-- One piece, then what is left of the range.
copy_range_step :
    (fuel buffer : ℕ) (rem : Option ℕ) (rest : Bytes)
    → 0 < length (take (piece_size buffer rem) rest)
    → copy_range (suc fuel) buffer rem rest
      ≡ take (piece_size buffer rem) rest
        ++ (if is_done (left_after rem (length (take (piece_size buffer rem) rest)))
            then []
            else copy_range fuel buffer
                (left_after rem (length (take (piece_size buffer rem) rest)))
                (drop (piece_size buffer rem) rest))
unfolding copy_range
copy_range_step fuel buffer rem rest h = elim (List-cases (take (piece_size buffer rem) rest)) [
  | inl e ↦ absurd (omega (arith, ap length e))
  | inr (x, xs, e) ↦ rw (e, copy_range) (rw e)
]

copy_range_rest :
    (fuel b left : ℕ) (rest : Bytes)
    → copy_range fuel (suc b) (some left) rest ≡ take left rest
    → (if left == 0 then [] else copy_range fuel (suc b) (some left) rest) ≡ take left rest
copy_range_rest fuel b zero rest e = refl
copy_range_rest fuel b (suc left) rest e = ground (arith, e)

-- A range of `r` bytes, or as many of them as the source has.
copy_range-some :
    (fuel b r : ℕ) (rest : Bytes)
    → length rest < fuel
    → copy_range fuel (suc b) (some r) rest ≡ take r rest
copy_range-some zero b r rest h = absurd (omega arith)
copy_range-some (suc fuel) b r [] h =
    copy_range_empty fuel (suc b) (some r) []
      (take_all (piece_size (suc b) (some r)) [] (omega arith))
    ∙ sym (take_all r [] (omega arith))
copy_range-some (suc fuel) b zero (x ∷ xs) h =
    copy_range_empty fuel (suc b) (some 0) (x ∷ xs) (rw (lt→ltb 0 (suc b) (omega arith)))
copy_range-some (suc fuel) b (suc r) (x ∷ xs) h =
    let n = piece_size (suc b) (some (suc r)) in
    let left = suc r - length (take n (x ∷ xs)) in
    let n_pos : 0 < n = ground arith in
    let size = length-take n (x ∷ xs) in
    copy_range_step fuel (suc b) (some (suc r)) (x ∷ xs) (omega (arith, size))
    ∙ (ap (λ t. take n (x ∷ xs) ++ t)
          (copy_range_rest fuel b left (drop n (x ∷ xs))
            (copy_range-some fuel b left (drop n (x ∷ xs)) (omega (arith, length-drop n (x ∷ xs)))))
        ∙ take_split n (suc r) (x ∷ xs) (ground arith))

read_source-eq :
    (b : ℕ) (config : FileRangeParams) (files : Files) (file : Bytes)
    → lookup config.key files ≡ some file
    → IsRange config
    → read_source (suc b) config files ≡ ok (part config file)
unfolding read_source
read_source-eq b config files file e r =
    let rest = drop (start_of config) file in
    elim (Option-cases config.end_byte) [
      | inl to_end ↦ ground (arith, copy_range-none (suc (length rest)) b rest (omega arith))
      | inr (last, closed) ↦ ground (
        arith,
        copy_range-some (suc (length rest)) b (last + 1 - start_of config) rest (omega arith),
      )
    ]

merge_sources_ok :
    (buffer : ℕ) (config : FileRangeParams) (configs : List FileRangeParams) (files : Files)
    (written bytes : Bytes)
    → read_source buffer config files ≡ ok bytes
    → merge_sources buffer (config ∷ configs) files written
      ≡ merge_sources buffer configs files (written ++ bytes)
unfolding merge_sources
merge_sources_ok buffer config configs files written bytes e = ground arith

merge_sources-eq :
    (b : ℕ) (configs : List FileRangeParams) (files : Files) (written bytes : Bytes)
    → Parts (λ k. lookup k files) configs bytes
    → merge_sources (suc b) configs files written ≡ (ok tt, written ++ bytes)
unfolding merge_sources
merge_sources-eq b [] files written bytes h = rw h (ap (λ t. (ok tt, t)) (sym (append-nil written)))
merge_sources-eq b (config ∷ configs) files written bytes (file, e, r, rest, eb, h) =
    merge_sources_ok (suc b) config configs files written (part config file)
      (read_source-eq b config files file e r)
    ∙ (merge_sources-eq b configs files (written ++ part config file) rest h
        ∙ ap (λ t. (ok tt, t))
            (append_assoc written (part config file) rest ∙ ap (λ t. written ++ t) (sym eb)))

-- The sources of a merge into another file are not touched by opening it.
Parts-insert :
    (files : Files) (dest : Text) (configs : List FileRangeParams) (bytes : Bytes)
    → IsAway dest configs
    → Parts (λ k. lookup k files) configs bytes
    → Parts (λ k. lookup k (insert dest [] files)) configs bytes
Parts-insert files dest [] bytes away h = h
Parts-insert files dest (config ∷ configs) bytes away (file, e, r, rest, eb, h) = (
  file,
  ground (arith, lookup-insert dest config.key [] files),
  r,
  rest,
  eb,
  Parts-insert files dest configs rest away.1 h,
)

-- A merge of readable parts into a file that is none of the sources makes that file their
-- concatenation, and changes no other file.
pub merge_ranges-eq :
    (buffer : ℕ) (configs : List FileRangeParams) (dest : Text) (files : Files) (bytes : Bytes)
    → 0 < buffer
    → IsAway dest configs
    → Parts (λ k. lookup k files) configs bytes
    → ((merge_ranges buffer configs dest files).0 ≡ ok tt)
      × ((key : Text)
          → lookup key (merge_ranges buffer configs dest files).1
            ≡ (if text_beq dest key then some bytes else lookup key files))
unfolding merge_ranges
merge_ranges-eq buffer configs dest files bytes hb away h =
    let opened = insert dest [] files in
    let size : suc (buffer - 1) ≡ buffer = omega arith in
    let merged : merge_sources buffer configs opened [] ≡ (ok tt, bytes) =
      subst (λ k. merge_sources k configs opened [] ≡ (ok tt, bytes)) size
        (merge_sources-eq (buffer - 1) configs opened [] bytes
          (Parts-insert files dest configs bytes away h)) in
    rw merged (
      refl,
      λ key. ground (arith, lookup-insert dest key bytes opened, lookup-insert dest key [] files),
    )
