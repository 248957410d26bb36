-- ===== src/Chunks/Slices.antt =====
-- The bytes of a range, and those that a fragment reads of a chunk's file.
use mathlib.Core.Option.{some-injective}
use sdownload.Prelude.{
  true, zero, min, suc, append-nil, ℕ, ◌+◌, ◌-◌, ◌<◌, ◌≡◌, Option, none, some, List, ◌++◌, take,
  drop, length, arith, refl, sym, ap, ◌∙◌, take-take, take-append-drop, drop_all, drop-drop,
}
use sdownload.Ranges.Coverage.{within_reach}
use sdownload.Models.Text.{Text}
use sdownload.Models.Range.{ChunkRange, ChunkFragment, range_eq}
use sdownload.Ranges.Coverage.Path.{ReadsFrom, fragment_end}
use sdownload.Storage.Protocol.{Bytes, part}
use sdownload.Chunks.Reconstruct.{end_byte_of}

-- The bytes of a range.
abbrev pub slice : ChunkRange → Bytes → Bytes
slice r source = elim r.end [
  | none ↦ drop r.start source
  | some e ↦ take (e + 1 - r.start) (drop r.start source)
]

pub slice_open :
    (start : ℕ) (end : Option ℕ) (source : Bytes)
    → end ≡ none
    → slice (record { start = start; end = end }) source ≡ drop start source
slice_open start none source e = refl
slice_open start (some k) source e = cc

pub slice_closed :
    (start last : ℕ) (end : Option ℕ) (source : Bytes)
    → end ≡ some last
    → slice (record { start = start; end = end }) source
      ≡ take (last + 1 - start) (drop start source)
slice_closed start last none source e = cc
slice_closed start last (some k) source e =
    ap (λ j. take (j + 1 - start) (drop start source)) (some-injective k last e)

front_behind :
    (source : Bytes) (start n : ℕ)
    → take n (drop start source) ++ drop (start + n) source ≡ drop start source
front_behind source start n =
    ap (λ t. take n (drop start source) ++ t) (sym (drop-drop n start source))
    ∙ take-append-drop n (drop start source)

front_behind_end :
    (source : Bytes) (start n end : ℕ)
    → start + n ≡ end
    → take n (drop start source) ++ drop end source ≡ drop start source
front_behind_end source start n end e =
    ap (λ k. take n (drop start source) ++ drop k source) (sym e) ∙ front_behind source start n

abbrev pub part_of : Text → ChunkFragment → Bytes → Bytes
part_of key f =
    part (record { key = key; start_byte = some 0; end_byte = end_byte_of f.read_limit_qt_bytes })

slice-part :
    (source : Bytes) (key : Text) (start : ℕ) (end limit : Option ℕ)
    → let f : ChunkFragment = record {
      range = record { start = start; end = end };
      read_limit_qt_bytes = limit;
    } in
      start < fragment_end (length source) f
      → within_reach (fragment_end (length source) f) end ≡ true
      → part_of key f (slice f.range source) ++ drop (fragment_end (length source) f) source
        ≡ drop start source
slice-part source key start none none h w =
    rw (drop_all (length source) source (omega arith)) (append-nil (drop start source))
slice-part source key start (some e) none h w =
    front_behind_end source start (e + 1 - start) (e + 1) (omega arith)
slice-part source key start end (some zero) h w = absurd (omega arith)
slice-part source key start none (some (suc k)) h w =
    let n : k + 1 - 0 ≡ suc k = omega arith in rw n (front_behind source start (suc k))
slice-part source key start (some e) (some (suc k)) h w =
    let n : min (k + 1 - 0) (e + 1 - start) ≡ suc k = ground arith in
    rw (take-take (k + 1 - 0) (e + 1 - start) (drop start source), n)
      (front_behind source start (suc k))

-- The bytes that a fragment reads of its chunk's file are the next ones of the source.
pub fragment-part :
    (chunks : List ChunkRange) (source : Bytes) (p : ℕ) (f : ChunkFragment) (key : Text)
    → ReadsFrom chunks (length source) p f
    → part_of key f (slice f.range source) ++ drop (fragment_end (length source) f) source
      ≡ drop p source
fragment-part chunks source p f key (i, e, l, w) =
    slice-part source key f.range.start f.range.end f.read_limit_qt_bytes (omega (arith, e)) w
    ∙ ap (λ k. drop k source) e
