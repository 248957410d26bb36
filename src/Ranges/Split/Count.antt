-- ===== src/Ranges/Split/Count.antt =====
-- How many ranges `calculate_ranges` makes of a file of which nothing is cached.
use native.Mathlib.Decide.{dec_le}
use native.Mathlib.Nat.{div-add-mod, lt_of_mul-lt-mul_right, le-div_iff_mul-le}
use sdownload.Prelude.{
  ◌/◌, none, ◌≢◌, ◌%◌, ℕ, zero, suc, ◌+◌, ◌-◌, ◌*◌, ◌≤◌, ◌<◌, ◌≡◌, some, Option, List, [], ◌∷◌,
  arith, length, ap,
}
use sdownload.Models.Range.{ChunkRange}
use sdownload.Ranges.Split.{fill_around, chunk_target, calculate_ranges, fill_gap}

fill_gap_last :
    (t e : ℕ) (last : Option ℕ) (fuel s : ℕ)
    → s ≤ e
    → e < s + t
    → fill_gap t e last (suc fuel) s ≡ record { start = s; end = last } ∷ []
unfolding fill_gap
fill_gap_last t e last fuel s h k = ground arith

fill_gap_more :
    (t e : ℕ) (last : Option ℕ) (fuel s : ℕ)
    → s + t ≤ e
    → fill_gap t e last (suc fuel) s
      ≡ record { start = s; end = some (s + t - 1) } ∷ fill_gap t e last fuel (s + t - 1 + 1)
unfolding fill_gap
fill_gap_more t e last fuel s h = ground arith

-- The gap is cut into as few ranges of `t` bytes as cover it.
length-fill_gap :
    (t e : ℕ) (last : Option ℕ) (fuel s : ℕ)
    → 0 < t
    → s ≤ e
    → e < fuel + s
    → (e < s + length (fill_gap t e last fuel s) * t)
      × (s + length (fill_gap t e last fuel s) * t ≤ e + t)
length-fill_gap t e last zero s ht hs hf = absurd (omega arith)
length-fill_gap t e last (suc fuel) s ht hs hf = elim (dec_le (s + t) e) [
  | yes more ↦ omega (
    arith,
    ap length (fill_gap_more t e last fuel s more),
    ap (λ (l : List ChunkRange). length l * t) (fill_gap_more t e last fuel s more),
    length-fill_gap t e last fuel (s + t - 1 + 1) ht (omega arith) (omega arith),
  )
  | no done ↦ omega (
    arith,
    ap (λ (l : List ChunkRange). length l * t) (fill_gap_last t e last fuel s hs (omega arith)),
  )
]

length-fill_around :
    (n t : ℕ)
    → 0 < t
    → 0 < n
    → (n ≤ length (fill_around n t [] 0) * t) × (length (fill_around n t [] 0) * t < n + t)
unfolding fill_around
length-fill_around n t ht hn = ground (arith, length-fill_gap t (n - 1) none n 0)

-- With nothing cached a file that is not empty is cut into as few ranges of the target size as cover it.
pub length-calculate_ranges :
    (file_size num_parts : ℕ)
    → 0 < file_size
    → let count = length (calculate_ranges file_size num_parts []) in
      (file_size ≤ count * chunk_target file_size num_parts)
      × (count * chunk_target file_size num_parts < file_size + chunk_target file_size num_parts)
unfolding calculate_ranges
length-calculate_ranges n parts h = length-fill_around n (chunk_target n parts) (omega arith) h

chunk_target_div : (n parts : ℕ) → 0 < parts → parts ≤ n → chunk_target n parts ≡ n / parts
chunk_target_div n parts hp hn =
    ground (arith, (le-div_iff_mul-le {x = 1} {y = n} hp).1 (omega arith))

-- With nothing cached, and a number of parts from 1 to the file size that does not divide the size,
-- there are more ranges than parts.
pub calculate_ranges_exceeds :
    (file_size num_parts : ℕ)
    → 0 < num_parts
    → num_parts ≤ file_size
    → file_size % num_parts ≢ 0
    → num_parts < length (calculate_ranges file_size num_parts [])
calculate_ranges_exceeds n parts hp hn hr =
    let count = length (calculate_ranges n parts []) in
    lt_of_mul-lt-mul_right (n / parts) (
      omega (
        arith,
        div-add-mod n parts,
        length-calculate_ranges n parts (omega arith),
        ap (λ (t : ℕ). count * t) (chunk_target_div n parts hp hn),
      ))
