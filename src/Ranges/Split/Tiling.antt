-- ===== src/Ranges/Split/Tiling.antt =====
-- Around a cache of separate ranges, `calculate_ranges` cuts the file without gap or overlap.
use sdownload.Prelude.{
  ℕ, zero, suc, ◌+◌, ◌-◌, ◌≤◌, ◌<◌, ◌≡◌, none, some, List, [], ◌∷◌, ◌++◌, arith, refl,
}
use sdownload.Prelude.Sort.{sorted}
use sdownload.Models.Range.{ChunkRange}
use sdownload.Ranges.Split.{
  fill_gap, gap_before, after_cached, fill_around, chunk_target, calculate_ranges,
}

-- The ranges follow one another from `pos` to the end of a file of `n` bytes: each starts where the
-- one before it ends, none is empty, and none reaches past the file; an open one ends with it.
abbrev pub Tiles : ℕ → ℕ → List ChunkRange → Type 0
Tiles n pos [] = pos ≡ n
Tiles n pos (r ∷ rs) =
    (r.start ≡ pos)
    × (pos < after_cached n r)
    × (after_cached n r ≤ n)
    × Tiles n (after_cached n r) rs

-- Ranges that lie in the file, in order and apart: each behind the end of the one before it.
abbrev pub Separate : ℕ → ℕ → List ChunkRange → Type 0
Separate n pos [] = pos ≤ n
Separate n pos (r ∷ rs) =
    (pos ≤ r.start)
    × (r.start < after_cached n r)
    × (after_cached n r ≤ n)
    × Separate n (after_cached n r) rs

-- A gap is cut into ranges that lead up to whatever follows it.
fill_gap-Tiles :
    (n t e fuel s : ℕ) (rest : List ChunkRange)
    → 0 < t
    → s ≤ e
    → e < fuel + s
    → e < n
    → Tiles n (e + 1) rest
    → Tiles n s (fill_gap t e (some e) fuel s ++ rest)
unfolding fill_gap
fill_gap-Tiles n t e zero s rest ht hs hf he hr = absurd (omega arith)
fill_gap-Tiles n t e (suc fuel) s rest ht hs hf he hr =
    ground (arith, fill_gap-Tiles n t e fuel (s + t - 1 + 1) rest)

-- The gap at the end of the file is cut up to its last byte.
fill_tail-Tiles :
    (n t fuel s : ℕ) → 0 < t → s < n → n ≤ fuel + s → Tiles n s (fill_gap t (n - 1) none fuel s)
unfolding fill_gap
fill_tail-Tiles n t zero s ht hs hf = absurd (omega arith)
fill_tail-Tiles n t (suc fuel) s ht hs hf = ground (arith, fill_tail-Tiles n t fuel (s + t - 1 + 1))

gap_before-Tiles :
    (n t : ℕ) (c : ChunkRange) (pos : ℕ) (rest : List ChunkRange)
    → 0 < t
    → pos ≤ c.start
    → Tiles n c.start (c ∷ rest)
    → Tiles n pos (gap_before t c pos ++ c ∷ rest)
gap_before-Tiles n t c pos rest ht hp hr =
    ground (arith, fill_gap-Tiles n t (c.start - 1) c.start pos (c ∷ rest))

fill_around-Tiles :
    (n t : ℕ) (cs : List ChunkRange) (pos : ℕ)
    → 0 < t
    → Separate n pos cs
    → Tiles n pos (fill_around n t cs pos)
unfolding fill_around
fill_around-Tiles n t [] pos ht h = ground (arith, fill_tail-Tiles n t n pos)
fill_around-Tiles n t (c ∷ cs) pos ht h =
    gap_before-Tiles n t c pos (fill_around n t cs (after_cached n c)) ht h.0
      (refl, h.1, h.2, fill_around-Tiles n t cs (after_cached n c) ht h.3)

-- With a cache of separate ranges the calculated ranges tile the file.
pub calculate_ranges-Tiles :
    (file_size num_parts : ℕ) (cache : List ChunkRange)
    → Separate file_size 0 (sorted (λ x. x.start) cache)
    → Tiles file_size 0 (calculate_ranges file_size num_parts cache)
unfolding calculate_ranges
calculate_ranges-Tiles n parts cache h =
    fill_around-Tiles n (chunk_target n parts) (sorted (λ x. x.start) cache) 0 (omega arith) h
