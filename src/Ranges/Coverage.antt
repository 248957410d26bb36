-- ===== src/Ranges/Coverage.antt =====
-- `calculate_optimal_coverage` of utils/range_operations.py: a breadth-first search for a shortest
-- run of chunks that covers the file.
pub mod Best
pub mod Path
pub mod Rounds
pub mod Sound
pub mod Returned
pub mod Chain
pub mod Progress
pub mod Complete
pub mod Decides
use sdownload.Prelude.{
  ℕ, zero, suc, ◌+◌, ◌-◌, Bool, true, false, ◌&&◌, ◌||◌, Option, none, some, List, [], ◌∷◌, ◌++◌,
  leb, ltb, ◌==◌, if◌then◌else◌, filter, reverse, length,
}
use sdownload.Prelude.Dict.{Dict, lookup, insert, keys, nat_eq}
use sdownload.Prelude.Sort.{sorted}
use sdownload.Models.Range.{ChunkRange, ChunkFragment}

-- The `ValueError`s of the function. The search itself ends before its fuel does.
pub data CoverageError : Type 0 where
  no_chunks gap_at_beginning gap_detected out_of_fuel : CoverageError

pub data Coverage : Type 0 where
  found : List ChunkFragment → Coverage
  raised : CoverageError → Coverage

-- `get_reach(a) > get_reach(b)`, where no end is `float("inf")`.
abbrev pub reaches_further : Option ℕ → Option ℕ → Bool
reaches_further none none = false
reaches_further none (some b) = true
reaches_further (some a) none = false
reaches_further (some a) (some b) = ltb b a

-- Step 1: the loop that keeps the chunk that reaches furthest for each start.
abbrev pub keep_best : Dict ℕ ChunkRange → ChunkRange → Dict ℕ ChunkRange
keep_best best chunk = elim (lookup chunk.start best) [
  | none ↦ insert chunk.start chunk best
  | some old ↦ if reaches_further chunk.end old.end then insert chunk.start chunk best else best
]

pub best_chunk_at : Dict ℕ ChunkRange → List ChunkRange → Dict ℕ ChunkRange
best_chunk_at best [] = best
best_chunk_at best (chunk ∷ chunks) = best_chunk_at (keep_best best chunk) chunks

abbrev pub elem : ℕ → List ℕ → Bool
elem a [] = false
elem a (x ∷ xs) = x == a || elem a xs

-- Step 3: the set of the start positions, with the file size, in order.
abbrev pub cut_points : List ℕ → Option ℕ → List ℕ
cut_points start_positions none = sorted (λ n. n) start_positions
cut_points start_positions (some file_size) =
    sorted (λ n. n)
      (if elem file_size start_positions then start_positions else file_size ∷ start_positions)

-- `cp <= chunk_reach + 1`
abbrev pub within_reach : ℕ → Option ℕ → Bool
within_reach cp none = true
within_reach cp (some e) = leb cp (e + 1)

abbrev pub is_goal : Option ℕ → ℕ → Bool
is_goal none p = false
is_goal (some file_size) p = p == file_size

-- `uses_entire_chunk` and `read_limit`.
abbrev pub read_limit : Option ℕ → ℕ → ℕ → Option ℕ
read_limit none current_pos next_pos = none
read_limit (some e) current_pos next_pos =
    let bytes_needed = next_pos - current_pos in
    if leb (e + 1) (current_pos + bytes_needed) then none else some bytes_needed

abbrev pub fragment : ChunkRange → ℕ → ℕ → ChunkFragment
fragment chunk current_pos next_pos = record {
  range = chunk;
  read_limit_qt_bytes = read_limit chunk.end current_pos next_pos;
}

abbrev pub Queue : Type 0
Queue = List (ℕ × List ChunkFragment)

-- Where a round of the loop leaves the search: it returns a path, or goes on.
pub data Round : Type 0 where
  returns : List ChunkFragment → Round
  continues : List ℕ → Queue → Round

-- The `for next_pos in reversed(reachable_cuts)` loop.
pub try_cuts : Option ℕ → ChunkRange → ℕ → List ChunkFragment → List ℕ → List ℕ → Queue → Round
try_cuts file_size chunk current_pos path [] visited queue = continues visited queue
try_cuts file_size chunk current_pos path (next_pos ∷ cuts) visited queue =
    let new_path = path ++ fragment chunk current_pos next_pos ∷ [] in
    elim (elem next_pos visited) [
      | true ↦ try_cuts file_size chunk current_pos path cuts visited queue
      | false ↦ elim (is_goal file_size next_pos) [
        | true ↦ returns new_path
        | false ↦
            try_cuts file_size chunk current_pos path cuts (next_pos ∷ visited)
              (queue ++ (next_pos, new_path) ∷ [])
      ]
    ]

abbrev pub reachable_cuts : List ℕ → ℕ → Option ℕ → List ℕ
reachable_cuts cuts current_pos chunk_end =
    filter (λ cp. ltb current_pos cp && within_reach cp chunk_end) cuts

-- No file size, and the chunk reads until EOF.
abbrev pub ends_search : Option ℕ → Option ℕ → Bool
ends_search none none = true
ends_search none (some e) = false
ends_search (some n) chunk_end = false

module _ (file_size : Option ℕ) (best : Dict ℕ ChunkRange) (cuts : List ℕ) where
  -- The body of `while queue`, after `popleft`.
  pub expand : ℕ → List ChunkFragment → List ℕ → Queue → Round
  unfolding try_cuts
  expand current_pos path visited queue = elim (is_goal file_size current_pos) [
    | true ↦ returns path
    | false ↦ elim (lookup current_pos best) [
      | none ↦ continues visited queue
      | some chunk ↦ elim (ends_search file_size chunk.end) [
        | true ↦ returns (path ++ record { range = chunk; read_limit_qt_bytes = none } ∷ [])
        | false ↦
            try_cuts file_size chunk current_pos path
              (reverse (reachable_cuts cuts current_pos chunk.end)) visited queue
      ]
    ]
  ]

  pub search : ℕ → List ℕ → Queue → Coverage
  unfolding expand
  search zero visited queue = raised out_of_fuel
  search (suc fuel) visited [] = raised gap_detected
  search (suc fuel) visited ((current_pos, path) ∷ queue) =
      elim (expand current_pos path visited queue) [
        | returns p ↦ found p
        | continues visited' queue' ↦ search fuel visited' queue'
      ]

-- Steps 2 to 4, on the best chunks. The first start position decides on a gap at the beginning.
pub cover_from : Option ℕ → Dict ℕ ChunkRange → List ℕ → Coverage
unfolding search
cover_from file_size best [] = raised no_chunks
cover_from file_size best (first ∷ starts) = elim (ltb 0 first) [
  | true ↦ raised gap_at_beginning
  | false ↦
      let cuts = cut_points (first ∷ starts) file_size in
      search file_size best cuts (suc (suc (length cuts))) (0 ∷ []) ((0, []) ∷ [])
]

unfoldable pub calculate_optimal_coverage : List ChunkRange → Option ℕ → Coverage
unfolding best_chunk_at cover_from
calculate_optimal_coverage [] file_size = raised no_chunks
calculate_optimal_coverage (chunk ∷ chunks) file_size =
    let best = best_chunk_at [] (chunk ∷ chunks) in
    cover_from file_size best (sorted (λ n. n) (keys best))
