-- ===== src/Models/Range/Contains.antt =====
-- What `in` decides on byte ranges (interfaces/models/chunk_models.py).
use sdownload.Prelude.{ℕ, ◌+◌, ◌≡◌, ◌↔◌, true, none, some, arith}
use sdownload.Models.Range.{ChunkRange, contains_offset, contains_range}

-- An offset of `s` that shows whether `s` ends within `r`.
last_offset : ChunkRange → ChunkRange → ℕ
last_offset r s = elim s.end [
  | none ↦ elim r.end [ none ↦ s.start | some e ↦ s.start + e + 1 ]
  | some e ↦ e
]

-- Each offset in `s` is in `r`.
abbrev pub IsSubset : ChunkRange → ChunkRange → Type 0
IsSubset s r = (b : ℕ) → contains_offset s b ≡ true → contains_offset r b ≡ true

-- A range is in another exactly when it is not empty and each of its offsets is in the other.
pub contains_range_iff :
    (r s : ChunkRange)
    → (contains_range r s ≡ true) ↔ ((contains_offset s s.start ≡ true) × IsSubset s r)
unfolding last_offset
contains_range_iff r s = (
  λ h. (ground arith, λ b hb. ground arith),
  λ h. ground (arith, h.1 s.start, h.1 (last_offset r s)),
)
