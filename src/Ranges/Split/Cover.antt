-- ===== src/Ranges/Split/Cover.antt =====
-- The ranges of `calculate_ranges` cover the file, and keep what was cached.
use sdownload.Prelude.{
  ℕ, zero, suc, ◌+◌, ◌-◌, ◌≤◌, ◌<◌, ◌≡◌, refl, ◌⊎◌, inl, inr, true, Option, none, some, List, [],
  ◌∷◌, ◌++◌, arith, In, In-append_right, ◌||◌,
}
use sdownload.Prelude.Sort.{sorted, In-sorted}
use sdownload.Models.Range.{ChunkRange}
use sdownload.Ranges.Split.{
  fill_gap, gap_before, after_cached, fill_around, chunk_target, calculate_ranges, covers,
}

covers-append :
    (b : ℕ) (rs ss : List ChunkRange) → covers (rs ++ ss) b ≡ (covers rs b || covers ss b)
covers-append b [] ss = refl
covers-append b (r ∷ rs) ss = ground (arith, covers-append b rs ss)

-- With as much fuel as the gap has bytes, every byte of the gap is covered.
fill_gap-covers :
    (t e : ℕ) (last : Option ℕ) (fuel s b : ℕ)
    → 0 < t
    → (last ≡ none) ⊎ (last ≡ some e)
    → e < fuel + s
    → s ≤ b
    → b ≤ e
    → covers (fill_gap t e last fuel s) b ≡ true
unfolding fill_gap
fill_gap-covers t e last zero s b ht hl hf hs hb = absurd (omega arith)
fill_gap-covers t e last (suc fuel) s b ht hl hf hs hb =
    ground (arith, fill_gap-covers t e last fuel (s + t - 1 + 1) b)

-- Whatever the cache holds, every byte from the current position on is covered.
fill_around-covers :
    (n t : ℕ) (cs : List ChunkRange) (pos b : ℕ)
    → 0 < t
    → pos ≤ b
    → b < n
    → covers (fill_around n t cs pos) b ≡ true
unfolding fill_around
fill_around-covers n t [] pos b ht hp hb =
    ground (arith, fill_gap-covers t (n - 1) none n pos b ht (inl refl))
fill_around-covers n t (c ∷ cs) pos b ht hp hb = ground (
  arith,
  covers-append b (gap_before t c pos) (c ∷ fill_around n t cs (after_cached n c)),
  fill_gap-covers t (c.start - 1) (some (c.start - 1)) c.start pos b ht (inr refl),
  fill_around-covers n t cs (after_cached n c) b ht,
)

-- Every byte of the file lies in one of the calculated ranges, whatever ranges are cached.
pub calculate_ranges-covers :
    (file_size num_parts : ℕ) (cache : List ChunkRange) (b : ℕ)
    → b < file_size
    → covers (calculate_ranges file_size num_parts cache) b ≡ true
unfolding calculate_ranges
calculate_ranges-covers n parts cache b h =
    fill_around-covers n (chunk_target n parts) (sorted (λ x. x.start) cache) 0 b (omega arith)
      (omega arith) h

fill_around-keeps :
    (n t : ℕ) (cs : List ChunkRange) (pos : ℕ) (c : ChunkRange)
    → In c cs
    → In c (fill_around n t cs pos)
unfolding fill_around
fill_around-keeps n t [] pos c h = absurd h
fill_around-keeps n t (d ∷ cs) pos c (inl e) =
    In-append_right c (gap_before t d pos) (d ∷ fill_around n t cs (after_cached n d)) (inl e)
fill_around-keeps n t (d ∷ cs) pos c (inr h) =
    In-append_right c (gap_before t d pos) (d ∷ fill_around n t cs (after_cached n d))
      (inr (fill_around-keeps n t cs (after_cached n d) c h))

-- Every cached range is among the calculated ranges.
pub calculate_ranges-keeps_cache :
    (file_size num_parts : ℕ) (cache : List ChunkRange) (c : ChunkRange)
    → In c cache
    → In c (calculate_ranges file_size num_parts cache)
unfolding calculate_ranges
calculate_ranges-keeps_cache n parts cache c h =
    fill_around-keeps n (chunk_target n parts) (sorted (λ x. x.start) cache) 0 c
      (In-sorted (λ x. x.start) c cache h)
