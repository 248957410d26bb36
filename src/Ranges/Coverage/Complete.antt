-- ===== src/Ranges/Coverage/Complete.antt =====
-- The search ends within its fuel, and finds a path wherever there is one.
use sdownload.Prelude.{
  ◌&&◌, ltb, In-reverse, In-reverse_cases, In-filter, In-filter_cases, ℕ, ◌≡◌, true, In, List, [],
  ◌∷◌, ◌<◌, Option, ◌⊎◌, inl, inr, suc, zero, Bool-cases, Option-cases, arith, reverse, sym, ◌∙◌,
}
use sdownload.Prelude.Dict.{Dict, lookup, nat_eq}
use sdownload.Models.Range.{ChunkRange, ChunkFragment}
use sdownload.Ranges.Coverage.{
  found, raised, gap_detected, elem, is_goal, Queue, continues, expand, search, ends_search,
  within_reach, reachable_cuts,
}
use sdownload.Ranges.Coverage.Rounds.{
  expand_goal, expand-none, expand_ends, expand_cuts, search_returns, search_continues, search_nil,
  Round-cases,
}
use sdownload.Ranges.Coverage.Chain.{IsClosed}
use sdownload.Ranges.Coverage.Progress.{
  positions, work, Extends, Extends-refl, try_cuts-Extends, continues-injective,
}

module _ (fs : Option ℕ) (best : Dict ℕ ChunkRange) (cuts : List ℕ) where
  -- Every seen offset is queued, or the search is done with it.
  abbrev pub IsAccounted : List ℕ → List ℕ → Type 0
  IsAccounted visited queued =
      (v : ℕ) → elem v visited ≡ true → In v queued ⊎ IsClosed fs best cuts visited v

  IsClosed-mono :
      (visited visited' : List ℕ) (v : ℕ)
      → ((m : ℕ) → elem m visited ≡ true → elem m visited' ≡ true)
      → IsClosed fs best cuts visited v
      → IsClosed fs best cuts visited' v
  IsClosed-mono visited visited' v more h = record {
    not_goal = h.not_goal;
    not_eof = h.not_eof;
    reaches = λ c q l i lt w. more q (h.reaches c q l i lt w);
  }

  -- A round that goes on closes the offset that it took, and loses nothing.
  expand-Extends :
      (p : ℕ) (path : List ChunkFragment) (visited : List ℕ) (queue : Queue) (visited' : List ℕ)
      (queue' : Queue)
      → expand fs best cuts p path visited queue ≡ continues visited' queue'
      → Extends cuts visited queue visited' queue' × IsClosed fs best cuts visited' p
  expand-Extends p path visited queue visited' queue' e = elim (Bool-cases (is_goal fs p)) [
    | inl done ↦ cc (expand_goal fs best cuts p path visited queue done)
    | inr more ↦ elim (Option-cases (lookup p best)) [
      | inl missing ↦
          let (ev, eq) =
            continues-injective
              (sym (expand-none fs best cuts p path visited queue more missing) ∙ e) in
          (
            rw (← ev, ← eq) (Extends-refl cuts visited queue),
            record { not_goal = more; not_eof = λ c l. cc; reaches = λ c q l i lt w. cc },
          )
      | inr (c, l) ↦ elim (Bool-cases (ends_search fs c.end)) [
        | inl ends ↦ cc (expand_ends fs best cuts p path visited queue c more l ends)
        | inr goes ↦
            let reachable = reachable_cuts cuts p c.end in
            let (ext, all) =
              try_cuts-Extends cuts fs c p path (reverse reachable) visited queue visited' queue'
                (λ m i.
                  (In-filter_cases (λ k. ltb p k && within_reach k c.end) m cuts
                    (In-reverse_cases m reachable i)).0)
                (sym (expand_cuts fs best cuts p path visited queue c more l goes) ∙ e) in
            (
              ext,
              record {
                not_goal = more;
                not_eof = λ d k. ground arith;
                reaches = λ d q k i lt w. all q (
                    In-reverse q reachable
                      (In-filter (λ m. ltb p m && within_reach m c.end) q cuts (ground arith) i));
              },
            )
      ]
    ]
  ]

  IsAccounted-expand :
      (p : ℕ) (path : List ChunkFragment) (visited : List ℕ) (queue : Queue) (visited' : List ℕ)
      (queue' : Queue)
      → Extends cuts visited queue visited' queue' × IsClosed fs best cuts visited' p
      → IsAccounted visited (p ∷ positions queue)
      → IsAccounted visited' (positions queue')
  IsAccounted-expand p path visited queue visited' queue' (ext, closed) h v i = elim (ext.new v i) [
    | inr queued ↦ inl queued
    | inl old ↦ elim (h v old) [
      | inl (inl here) ↦ inr (rw here closed)
      | inl (inr later) ↦ inl (ext.queued v later)
      | inr done ↦ inr (IsClosed-mono visited visited' v ext.seen done)
    ]
  ]

  -- The search returns a path, or has seen everything that it can reach.
  pub search_outcome :
      (fuel : ℕ) (visited : List ℕ) (queue : Queue)
      → elem 0 visited ≡ true
      → IsAccounted visited (positions queue)
      → work cuts visited queue < fuel
      → ((path : List ChunkFragment) × (search fs best cuts fuel visited queue ≡ found path))
        ⊎ ((seen : List ℕ) × (elem 0 seen ≡ true)
            × ((v : ℕ) → elem v seen ≡ true → IsClosed fs best cuts seen v)
            × (search fs best cuts fuel visited queue ≡ raised gap_detected))
  search_outcome zero visited queue z h w = absurd (omega arith)
  search_outcome (suc fuel) visited [] z h w = inr (
    visited,
    z,
    λ v i. elim (h v i) [ inl q ↦ absurd q | inr c ↦ c ],
    search_nil fs best cuts fuel visited,
  )
  search_outcome (suc fuel) visited ((p, path) ∷ queue) z h w =
      elim (Round-cases (expand fs best cuts p path visited queue)) [
        | inl (r, k) ↦ inl (r, search_returns fs best cuts p path visited queue fuel r k)
        | inr (v, q, k) ↦
            let ext = expand-Extends p path visited queue v q k in
            rw (search_continues fs best cuts p path visited queue fuel v q k) (
              search_outcome fuel v q (ext.0.seen 0 z)
                (IsAccounted-expand p path visited queue v q ext h) (omega (arith, ext.0.less)))
      ]
