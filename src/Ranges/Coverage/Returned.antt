-- ===== src/Ranges/Coverage/Returned.antt =====
-- The paths that `calculate_optimal_coverage` returns.
use native.Mathlib.Decide.{dec_le}
use sdownload.Ranges.Coverage.{
  calculate_optimal_coverage, cover_from, best_chunk_at, cut_points, is_goal, Queue, continues,
  elem, expand, search, found, ends_search, reachable_cuts, within_reach, read_limit,
}
use sdownload.Prelude.Sort.{
  sorted, IsAscending-sorted, In-sorted, IsAscending, IsDescending, IsDescending-reverse,
  IsAscending-filter,
}
use sdownload.Prelude.Dict.{keys, Dict, lookup, nat_eq}
use sdownload.Ranges.Coverage.Best.{best_chunk_at-IsFrom, IsFrom}
use sdownload.Ranges.Coverage.Rounds.{
  search-zero, search_nil, search_returns, search_continues, Round-cases, expand_goal, expand-none,
  expand_ends, expand_cuts,
}
use sdownload.Prelude.{
  if◌then◌else◌, ◌∙◌, sym, subst, length, ◌&&◌, In-reverse, In-filter, ltb, ℕ, zero, suc, ◌<◌, ◌≡◌,
  refl, inl, inr, true, false, Option, none, some, List, [], ◌∷◌, arith, In, Bool-cases,
  Option-cases, reverse,
}
use sdownload.Models.Range.{ChunkRange, ChunkFragment}
use sdownload.Ranges.Coverage.Path.{open-Reads, Reads}
use sdownload.Ranges.Coverage.Sound.{
  IsQueued, IsSound, cut-IsQueued, try_cuts-IsSound, try_cuts_open, IsTarget, IsTarget-goal,
  IsTarget-known, IsTarget-unknown, cut_bounds,
}

found-injective : {p q : List ChunkFragment} → found p ≡ found q → p ≡ q
found-injective h = cc

module _ (chunks : List ChunkRange) (n : ℕ) (fs : Option ℕ) (best : Dict ℕ ChunkRange)
    (cuts : List ℕ) (target : IsTarget chunks n fs) (source : IsFrom chunks best)
    (sorted : IsAscending cuts) (end_is_cut : is_goal fs n ≡ true → In n cuts) where
  falling : (p : ℕ) (end : Option ℕ) → IsDescending (reverse (reachable_cuts cuts p end))
  falling p end =
      IsDescending-reverse (reachable_cuts cuts p end)
        (IsAscending-filter (λ m. ltb p m && within_reach m end) cuts sorted)

  end_reachable :
      (p : ℕ) (end : Option ℕ)
      → p < n
      → is_goal fs n ≡ true
      → end ≡ none
      → In n (reverse (reachable_cuts cuts p end))
  end_reachable p end h known e =
      In-reverse n (reachable_cuts cuts p end)
        (In-filter (λ m. ltb p m && within_reach m end) n cuts (ground arith) (end_is_cut known))

  -- A chunk without end that does not end the search reads up to the end of the file, of which
  -- the size is known; behind the end all is allowed.
  expand_open :
      (c : ChunkRange) (p : ℕ) (path : List ChunkFragment) (visited : List ℕ) (queue : Queue)
      → is_goal fs p ≡ false
      → lookup p best ≡ some c
      → c.end ≡ none
      → ends_search fs c.end ≡ false
      → IsQueued chunks n p path
      → IsSound chunks n fs (continues visited queue)
      → IsSound chunks n fs (expand fs best cuts p path visited queue)
  expand_open c p path visited queue g l e s hp h = elim (dec_le p n) [
    | no far ↦ rw (expand_cuts fs best cuts p path visited queue c g l s) (
        try_cuts-IsSound chunks n fs c p path (reverse (reachable_cuts cuts p c.end)) visited queue
          (IsTarget-goal chunks n fs target)
          (λ cp i. inl (omega (arith, (cut_bounds chunks n cuts p cp c.end i).0))) h)
    | yes near ↦
        let known = IsTarget-known chunks n fs target (rw e at s) in
        let p_lt_n : p < n = ground (arith, g, known) in
        rw
          (
            expand_cuts fs best cuts p path visited queue c g l s,
            try_cuts_open chunks n fs c p path (reverse (reachable_cuts cuts p c.end)) visited queue
                (IsTarget-goal chunks n fs target) known (falling p c.end)
                (end_reachable p c.end p_lt_n known e) (h.1 known),
          )
          (open-Reads chunks n c (read_limit c.end p n) p path e (rw e) (source p c l).1
            (source p c l).0 p_lt_n (ground arith))
  ]

  expand-IsSound :
      (p : ℕ) (path : List ChunkFragment) (visited : List ℕ) (queue : Queue)
      → IsQueued chunks n p path
      → IsSound chunks n fs (continues visited queue)
      → IsSound chunks n fs (expand fs best cuts p path visited queue)
  expand-IsSound p path visited queue hp h = elim (Bool-cases (is_goal fs p)) [
    | inl done ↦
        rw (expand_goal fs best cuts p path visited queue done)
          (ground (arith, IsTarget-goal chunks n fs target p done))
    | inr more ↦ elim (Option-cases (lookup p best)) [
      | inl missing ↦ rw (expand-none fs best cuts p path visited queue more missing) h
      | inr (c, l) ↦ elim (Bool-cases (ends_search fs c.end)) [
        | inl ends ↦
            let p_lt_n : p < n =
              rw (← (source p c l).0)
                (IsTarget-unknown chunks n fs c target ends (source p c l).1) in
            rw (expand_ends fs best cuts p path visited queue c more l ends) (
              open-Reads chunks n c none p path (ground arith) refl (source p c l).1
                (source p c l).0 p_lt_n (ground arith))
        | inr goes ↦ elim (Option-cases c.end) [
          | inl e ↦ expand_open c p path visited queue more l e goes hp h
          | inr (e, he) ↦ rw (expand_cuts fs best cuts p path visited queue c more l goes) (
              try_cuts-IsSound chunks n fs c p path (reverse (reachable_cuts cuts p c.end)) visited
                queue (IsTarget-goal chunks n fs target)
                (λ cp i.
                  let bounds = cut_bounds chunks n cuts p cp c.end i in
                  cut-IsQueued chunks n c e p cp path he (source p c l).1 (source p c l).0 bounds.0
                    (ground arith) hp)
                h)
        ]
      ]
    ]
  ]

  search-Reads :
      (fuel : ℕ) (visited : List ℕ) (queue : Queue) (path : List ChunkFragment)
      → IsSound chunks n fs (continues visited queue)
      → search fs best cuts fuel visited queue ≡ found path
      → Reads chunks n 0 path n
  search-Reads zero visited queue path h e = cc (search-zero fs best cuts visited queue)
  search-Reads (suc fuel) visited [] path h e = cc (search_nil fs best cuts fuel visited)
  search-Reads (suc fuel) visited ((p, q) ∷ queue) path h e =
      let sound = expand-IsSound p q visited queue h.0.0 (h.0.1, h.1) in
      elim (Round-cases (expand fs best cuts p q visited queue)) [
        | inl (r, k) ↦
            subst (λ (x : List ChunkFragment). Reads chunks n 0 x n)
              (found-injective (sym (search_returns fs best cuts p q visited queue fuel r k) ∙ e))
              (rw k at sound)
        | inr (v, q', k) ↦
            search-Reads fuel v q' path (rw k at sound)
              (sym (search_continues fs best cuts p q visited queue fuel v q' k) ∙ e)
      ]

In-of_elem : (a : ℕ) (xs : List ℕ) → elem a xs ≡ true → In a xs
In-of_elem a [] h = cc
In-of_elem a (x ∷ xs) h = ground (arith, In-of_elem a xs)

cut_points-IsAscending : (starts : List ℕ) (fs : Option ℕ) → IsAscending (cut_points starts fs)
cut_points-IsAscending starts none = IsAscending-sorted starts
cut_points-IsAscending starts (some m) =
    IsAscending-sorted (if elem m starts then starts else m ∷ starts)

pub cut_points-end :
    (starts : List ℕ) (fs : Option ℕ) (n : ℕ) → is_goal fs n ≡ true → In n (cut_points starts fs)
cut_points-end starts none n h = cc
cut_points-end starts (some m) n h =
    In-sorted (λ k. k) n (if elem m starts then starts else m ∷ starts)
      (ground (arith, In-of_elem m starts))

unseen_start :
    (fs : Option ℕ) (n : ℕ) → is_goal fs n ≡ true → is_goal fs 0 ≡ false → elem n (0 ∷ []) ≡ false
unseen_start none n h k = cc
unseen_start (some m) n h k = ground arith

cover_from-Reads :
    (chunks : List ChunkRange) (n : ℕ) (fs : Option ℕ) (best : Dict ℕ ChunkRange) (starts : List ℕ)
    (path : List ChunkFragment)
    → IsTarget chunks n fs
    → IsFrom chunks best
    → cover_from fs best starts ≡ found path
    → Reads chunks n 0 path n
unfolding cover_from
cover_from-Reads chunks n fs best [] path target source e = cc
cover_from-Reads chunks n fs best (zero ∷ starts) path target source e =
    let cuts = cut_points (zero ∷ starts) fs in
    elim (Bool-cases (is_goal fs 0)) [
      | inl done ↦
          let first =
            search_returns fs best cuts 0 [] (0 ∷ []) [] (suc (length cuts)) []
              (expand_goal fs best cuts 0 [] (0 ∷ []) [] done) in
          subst (λ (x : List ChunkFragment). Reads chunks n 0 x n) (found-injective (sym first ∙ e))
            (IsTarget-goal chunks n fs target 0 done)
      | inr more ↦
          search-Reads chunks n fs best cuts target source
            (cut_points-IsAscending (zero ∷ starts) fs) (cut_points-end (zero ∷ starts) fs n)
            (suc (suc (length cuts))) (0 ∷ []) ((0, []) ∷ []) path
            ((inr refl, tt), λ g. unseen_start fs n g more) e
    ]
cover_from-Reads chunks n fs best (suc k ∷ starts) path target source e = ground arith

-- Let the size of the file be known, or every chunk start before its unknown end. The fragments of
-- a returned path are the starts of given chunks, and read the file once from front to end.
pub calculate_optimal_coverage-Reads :
    (chunks : List ChunkRange) (file_size : Option ℕ) (n : ℕ) (path : List ChunkFragment)
    → IsTarget chunks n file_size
    → calculate_optimal_coverage chunks file_size ≡ found path
    → Reads chunks n 0 path n
unfolding calculate_optimal_coverage
calculate_optimal_coverage-Reads [] fs n path target e = cc
calculate_optimal_coverage-Reads (c ∷ cs) fs n path target e =
    let best = best_chunk_at [] (c ∷ cs) in
    cover_from-Reads (c ∷ cs) n fs best (sorted (λ k. k) (keys best)) path target
      (best_chunk_at-IsFrom (c ∷ cs)) e
