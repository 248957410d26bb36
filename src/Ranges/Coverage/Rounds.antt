-- ===== src/Ranges/Coverage/Rounds.antt =====
-- The steps of the search's two loops, as equations.
use sdownload.Prelude.{
  zero, ◌⊎◌, inl, inr, ℕ, ◌≡◌, true, false, none, some, List, [], ◌∷◌, ◌++◌, Option, reverse, suc,
  arith, refl,
}
use sdownload.Prelude.Dict.{Dict, lookup, nat_eq}
use sdownload.Models.Range.{ChunkRange, ChunkFragment}
use sdownload.Ranges.Coverage.{
  out_of_fuel, gap_detected, Round, raised, elem, is_goal, fragment, Queue, returns, continues,
  try_cuts, expand, ends_search, reachable_cuts, search, found,
}

pub try_cuts_nil :
    (fs : Option ℕ) (c : ChunkRange) (p : ℕ) (path : List ChunkFragment) (visited : List ℕ)
    (queue : Queue)
    → try_cuts fs c p path [] visited queue ≡ continues visited queue
unfolding try_cuts
try_cuts_nil fs c p path visited queue = refl

module _ (fs : Option ℕ) (c : ChunkRange) (p : ℕ) (path : List ChunkFragment) (cp : ℕ)
    (cuts visited : List ℕ) (queue : Queue) where
  pub try_cuts_seen :
      elem cp visited ≡ true
      → try_cuts fs c p path (cp ∷ cuts) visited queue ≡ try_cuts fs c p path cuts visited queue
  unfolding try_cuts
  try_cuts_seen h = ground arith

  pub try_cuts_goal :
      elem cp visited ≡ false
      → is_goal fs cp ≡ true
      → try_cuts fs c p path (cp ∷ cuts) visited queue ≡ returns (path ++ fragment c p cp ∷ [])
  unfolding try_cuts
  try_cuts_goal h k = ground arith

  pub try_cuts_push :
      elem cp visited ≡ false
      → is_goal fs cp ≡ false
      → try_cuts fs c p path (cp ∷ cuts) visited queue
        ≡ try_cuts fs c p path cuts
            (cp ∷ visited)
            (queue ++ (cp, path ++ fragment c p cp ∷ []) ∷ [])
  unfolding try_cuts
  try_cuts_push h k = ground arith

module _ (fs : Option ℕ) (best : Dict ℕ ChunkRange) (cuts : List ℕ) (p : ℕ)
    (path : List ChunkFragment) (visited : List ℕ) (queue : Queue) where
  pub expand_goal : is_goal fs p ≡ true → expand fs best cuts p path visited queue ≡ returns path
  unfolding expand
  expand_goal h = ground arith

  pub expand-none :
      is_goal fs p ≡ false
      → lookup p best ≡ none
      → expand fs best cuts p path visited queue ≡ continues visited queue
  unfolding expand
  expand-none h k = ground arith

  pub expand_ends :
      (c : ChunkRange)
      → is_goal fs p ≡ false
      → lookup p best ≡ some c
      → ends_search fs c.end ≡ true
      → expand fs best cuts p path visited queue
        ≡ returns (path ++ record { range = c; read_limit_qt_bytes = none } ∷ [])
  unfolding expand
  expand_ends c h k e = ground arith

  pub expand_cuts :
      (c : ChunkRange)
      → is_goal fs p ≡ false
      → lookup p best ≡ some c
      → ends_search fs c.end ≡ false
      → expand fs best cuts p path visited queue
        ≡ try_cuts fs c p path (reverse (reachable_cuts cuts p c.end)) visited queue
  unfolding expand
  expand_cuts c h k e = ground arith

  pub search_returns :
      (fuel : ℕ) (r : List ChunkFragment)
      → expand fs best cuts p path visited queue ≡ returns r
      → search fs best cuts (suc fuel) visited ((p, path) ∷ queue) ≡ found r
  unfolding search
  search_returns fuel r h = ground arith

  pub search_continues :
      (fuel : ℕ) (visited' : List ℕ) (queue' : Queue)
      → expand fs best cuts p path visited queue ≡ continues visited' queue'
      → search fs best cuts (suc fuel) visited ((p, path) ∷ queue)
        ≡ search fs best cuts fuel visited' queue'
  unfolding search
  search_continues fuel visited' queue' h = ground arith

pub search-zero :
    (fs : Option ℕ) (best : Dict ℕ ChunkRange) (cuts visited : List ℕ) (queue : Queue)
    → search fs best cuts zero visited queue ≡ raised out_of_fuel
unfolding search
search-zero fs best cuts visited queue = refl

pub search_nil :
    (fs : Option ℕ) (best : Dict ℕ ChunkRange) (cuts : List ℕ) (fuel : ℕ) (visited : List ℕ)
    → search fs best cuts (suc fuel) visited [] ≡ raised gap_detected
unfolding search
search_nil fs best cuts fuel visited = refl

pub Round-cases :
    (r : Round)
    → ((path : List ChunkFragment) × (r ≡ returns path))
      ⊎ ((visited : List ℕ) × (queue : Queue) × (r ≡ continues visited queue))
Round-cases (returns path) = inl (path, refl)
Round-cases (continues visited queue) = inr (visited, queue, refl)
