-- ===== src/Ranges/Coverage/Decides.antt =====
-- `calculate_optimal_coverage` succeeds wherever the file can be covered.
use sdownload.Prelude.{
  if◌then◌else◌, subst, none, some, Option-cases, ℕ, ◌≡◌, true, false, In, List, [], ◌∷◌, Option,
  inl, inr, refl, suc, zero, arith, length, sym, ◌∙◌, ◌≢◌,
}
use sdownload.Prelude.Dict.{Dict, lookup, nat_eq, keys, In-keys_of_lookup}
use sdownload.Prelude.Sort.{le_of_In-IsAbove, sorted, In-sorted, IsAscending-sorted, IsAscending}
use sdownload.Models.Range.{ChunkRange, ChunkFragment}
use sdownload.Ranges.Coverage.{
  found, raised, out_of_fuel, is_goal, elem, cut_points, best_chunk_at, cover_from,
  calculate_optimal_coverage,
}
use sdownload.Ranges.Coverage.Best.{best_chunk_at-HasBest, HasBest, IsAtLeast}
use sdownload.Ranges.Coverage.Returned.{cut_points-end}
use sdownload.Ranges.Coverage.Chain.{Chain, at_end, to_eof, hop, not-Chain}
use sdownload.Ranges.Coverage.Progress.{unseen-le}
use sdownload.Ranges.Coverage.Complete.{IsAccounted, search_outcome}

elem_of_In : (a : ℕ) (xs : List ℕ) → In a xs → elem a xs ≡ true
elem_of_In a [] i = absurd i
elem_of_In a (x ∷ xs) (inl e) = ground arith
elem_of_In a (x ∷ xs) (inr i) = ground (arith, elem_of_In a xs i)

cut_points-start :
    (starts : List ℕ) (fs : Option ℕ) (p : ℕ) → In p starts → In p (cut_points starts fs)
cut_points-start starts none p i = In-sorted (λ k. k) p starts i
cut_points-start starts (some m) p i =
    In-sorted (λ k. k) p (if elem m starts then starts else m ∷ starts) (ground arith)

-- At the start of the search nothing but offset 0 is seen, and it is queued.
IsAccounted-start :
    (fs : Option ℕ) (best : Dict ℕ ChunkRange) (cuts : List ℕ)
    → IsAccounted fs best cuts (0 ∷ []) (0 ∷ [])
IsAccounted-start fs best cuts v h = inl (inl (ground arith))

cover_from_complete :
    (chunks : List ChunkRange) (fs : Option ℕ) (best : Dict ℕ ChunkRange) (starts : List ℕ)
    → ((c : ChunkRange) → In c chunks → HasBest best c)
    → ((p : ℕ) (c : ChunkRange) → lookup p best ≡ some c → In p starts)
    → IsAscending starts
    → In 0 starts
    → Chain chunks fs 0
    → (path : List ChunkFragment) × (cover_from fs best starts ≡ found path)
unfolding cover_from
cover_from_complete chunks fs best [] has keyed up z chain = absurd z
cover_from_complete chunks fs best (suc k ∷ starts) has keyed up z chain = elim z [
  | inl e ↦ absurd (omega arith)
  | inr i ↦ absurd (omega (arith, le_of_In-IsAbove (suc k) 0 starts up.0 i))
]
cover_from_complete chunks fs best (zero ∷ starts) has keyed up z chain =
    let cuts = cut_points (zero ∷ starts) fs in
    elim (search_outcome fs best cuts (suc (suc (length cuts))) (0 ∷ []) ((0, []) ∷ []) refl
      (IsAccounted-start fs best cuts) (omega (arith, unseen-le (0 ∷ []) cuts))) [
        | inl (path, e) ↦ (path, e)
        | inr (seen, z', closed, e) ↦ absurd (
            not-Chain fs best cuts chunks has
              (λ p c l. cut_points-start (zero ∷ starts) fs p (keyed p c l))
              (λ p g. cut_points-end (zero ∷ starts) fs p g) seen closed chain z')
      ]

-- A chain from an offset that is not the end begins with a chunk.
pub Chain-chunk :
    (chunks : List ChunkRange) (fs : Option ℕ) {p : ℕ}
    → Chain chunks fs p
    → is_goal fs p ≡ false
    → (c : ChunkRange) × In c chunks × (c.start ≡ p)
Chain-chunk chunks fs (at_end g) h = cc
Chain-chunk chunks fs (to_eof c i e s) h = (c, i, e)
Chain-chunk chunks fs (hop c i e l w r) h = (c, i, e)

HasBest-key : (best : Dict ℕ ChunkRange) (c : ChunkRange) → HasBest best c → In c.start (keys best)
HasBest-key best c h = elim (Option-cases (lookup c.start best)) [
  | inl missing ↦ absurd (subst (IsAtLeast c.end) missing h)
  | inr (b, l) ↦ In-keys_of_lookup c.start b best l
]

-- The file is not known to be empty. If a chain of chunks leads from its first byte to its end, a path
-- is returned.
pub calculate_optimal_coverage_complete :
    (chunks : List ChunkRange) (file_size : Option ℕ)
    → is_goal file_size 0 ≡ false
    → Chain chunks file_size 0
    → (path : List ChunkFragment) × (calculate_optimal_coverage chunks file_size ≡ found path)
unfolding calculate_optimal_coverage
calculate_optimal_coverage_complete [] fs h chain =
    let (c, i, _) = Chain-chunk [] fs chain h in absurd i
calculate_optimal_coverage_complete (c ∷ cs) fs h chain =
    let best = best_chunk_at [] (c ∷ cs) in
    let starts = keys best in
    let (d, i, e) = Chain-chunk (c ∷ cs) fs chain h in
    cover_from_complete (c ∷ cs) fs best (sorted (λ k. k) starts)
      (best_chunk_at-HasBest [] (c ∷ cs))
      (λ p b l. In-sorted (λ k. k) p starts (In-keys_of_lookup p b best l))
      (IsAscending-sorted starts)
      (In-sorted (λ k. k) 0 starts
        (subst (λ k. In k starts) e (HasBest-key best d (best_chunk_at-HasBest [] (c ∷ cs) d i))))
      chain

cover_from-ends :
    (fs : Option ℕ) (best : Dict ℕ ChunkRange) (starts : List ℕ)
    → cover_from fs best starts ≢ raised out_of_fuel
unfolding cover_from
cover_from-ends fs best [] e = cc
cover_from-ends fs best (suc k ∷ starts) e = ground arith
cover_from-ends fs best (zero ∷ starts) e =
    let cuts = cut_points (zero ∷ starts) fs in
    elim (search_outcome fs best cuts (suc (suc (length cuts))) (0 ∷ []) ((0, []) ∷ []) refl
      (IsAccounted-start fs best cuts) (omega (arith, unseen-le (0 ∷ []) cuts))) [
        | inl (path, k) ↦ cc (sym k ∙ e)
        | inr (seen, z, closed, k) ↦ cc (sym k ∙ e)
      ]

-- The search ends by itself, whatever the chunks are.
pub calculate_optimal_coverage-ends :
    (chunks : List ChunkRange) (file_size : Option ℕ)
    → calculate_optimal_coverage chunks file_size ≢ raised out_of_fuel
unfolding calculate_optimal_coverage
calculate_optimal_coverage-ends [] fs e = cc
calculate_optimal_coverage-ends (c ∷ cs) fs e =
    let best = best_chunk_at [] (c ∷ cs) in cover_from-ends fs best (sorted (λ k. k) (keys best)) e
