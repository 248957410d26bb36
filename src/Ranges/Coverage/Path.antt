-- ===== src/Ranges/Coverage/Path.antt =====
-- What a list of fragments reads: the specification of `calculate_optimal_coverage`.
use sdownload.Prelude.{
  Option, sym, ◌∙◌, ℕ, ◌+◌, ◌≤◌, ◌<◌, ◌≡◌, refl, true, none, some, List, [], ◌∷◌, ◌++◌, arith, In,
}
use sdownload.Models.Range.{ChunkRange, ChunkFragment}
use sdownload.Ranges.Coverage.{within_reach, fragment}

-- The offset behind the last byte that the fragment reads, of a file of `n` bytes.
abbrev pub fragment_end : ℕ → ChunkFragment → ℕ
fragment_end n f = elim f.read_limit_qt_bytes [
  | none ↦ elim f.range.end [ none ↦ n | some e ↦ e + 1 ]
  | some k ↦ f.range.start + k
]

-- The fragment is the start of one of the chunks, has the byte at `p`, and stays in its chunk.
abbrev pub ReadsFrom : List ChunkRange → ℕ → ℕ → ChunkFragment → Type 0
ReadsFrom chunks n p f =
    In f.range chunks
    × (f.range.start ≡ p)
    × (p < fragment_end n f)
    × (within_reach (fragment_end n f) f.range.end ≡ true)

-- One after another the fragments read the bytes from `p` up to `q`, each byte once.
abbrev pub Reads : List ChunkRange → ℕ → ℕ → List ChunkFragment → ℕ → Type 0
Reads chunks n p [] q = p ≡ q
Reads chunks n p (f ∷ fs) q = ReadsFrom chunks n p f × Reads chunks n (fragment_end n f) fs q

pub Reads-snoc :
    (chunks : List ChunkRange) (n p : ℕ) (fs : List ChunkFragment) (q : ℕ) (f : ChunkFragment)
    → Reads chunks n p fs q
    → ReadsFrom chunks n q f
    → Reads chunks n p (fs ++ f ∷ []) (fragment_end n f)
Reads-snoc chunks n p [] q f h k = ((k.0, k.1 ∙ sym h, rw h k.2, k.3), refl)
Reads-snoc chunks n p (g ∷ fs) q f h k = (h.0, Reads-snoc chunks n (fragment_end n g) fs q f h.1 k)

-- A closed chunk is cut so that its fragment ends at the next cut point.
pub fragment-ReadsFrom :
    (chunks : List ChunkRange) (n : ℕ) (c : ChunkRange) (e p cp : ℕ)
    → c.end ≡ some e
    → In c chunks
    → c.start ≡ p
    → p < cp
    → cp ≤ e + 1
    → (fragment_end n (fragment c p cp) ≡ cp) × ReadsFrom chunks n p (fragment c p cp)
fragment-ReadsFrom chunks n c e p cp he hc hs hp hcp = ground arith

-- A chunk without end that is read whole reads up to the end of the file.
pub open-Reads :
    (chunks : List ChunkRange) (n : ℕ) (c : ChunkRange) (limit : Option ℕ) (p : ℕ)
    (path : List ChunkFragment)
    → c.end ≡ none
    → limit ≡ none
    → In c chunks
    → c.start ≡ p
    → p < n
    → Reads chunks n 0 path p
    → Reads chunks n 0 (path ++ record { range = c; read_limit_qt_bytes = limit } ∷ []) n
open-Reads chunks n c limit p path he hl hc hs hp h =
    let f : ChunkFragment = record { range = c; read_limit_qt_bytes = limit } in
    let ends : fragment_end n f ≡ n = ground arith in
    rw ends at (Reads-snoc chunks n 0 path p f h (ground arith))
