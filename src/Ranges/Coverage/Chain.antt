-- ===== src/Ranges/Coverage/Chain.antt =====
-- When the file can be covered at all, and why a search that has seen everything would know.
use sdownload.Prelude.{
  ℕ, ◌≡◌, true, false, In, List, ◌<◌, Option, inl, inr, subst, some, Option-cases, arith,
}
use sdownload.Prelude.Dict.{Dict, lookup, nat_eq}
use sdownload.Models.Range.{ChunkRange}
use sdownload.Ranges.Coverage.{elem, is_goal, within_reach, ends_search, reaches_further}
use sdownload.Ranges.Coverage.Best.{HasBest, IsAtLeast}

-- From offset `p` chunks that each start where the one before is left lead to the end of the file,
-- or to a chunk that reads until EOF if the size is not known.
pub data Chain (chunks : List ChunkRange) (fs : Option ℕ) : ℕ → Type 0 where
  at_end : {p : ℕ} → is_goal fs p ≡ true → Chain chunks fs p
  to_eof :
      {p : ℕ} (c : ChunkRange)
      → In c chunks
      → c.start ≡ p
      → ends_search fs c.end ≡ true
      → Chain chunks fs p
  hop :
      {p q : ℕ} (c : ChunkRange)
      → In c chunks
      → c.start ≡ p
      → p < q
      → within_reach q c.end ≡ true
      → Chain chunks fs q
      → Chain chunks fs p

ends_search_further :
    (fs a b : Option ℕ)
    → ends_search fs a ≡ true
    → reaches_further a b ≡ false
    → ends_search fs b ≡ false
    → ⊥
ends_search_further fs a b s r h = ground arith

within_reach_further :
    (q : ℕ) (a b : Option ℕ)
    → within_reach q a ≡ true
    → reaches_further a b ≡ false
    → within_reach q b ≡ true
within_reach_further q a b w r = ground arith

module _ (fs : Option ℕ) (best : Dict ℕ ChunkRange) (cuts : List ℕ) where
  -- The search is done with `v`: it is not the end, and all that its best chunk reaches is seen.
  pub record IsClosed (visited : List ℕ) (v : ℕ) : Type 0 where
    pub not_goal : is_goal fs v ≡ false
    pub not_eof : (c : ChunkRange) → lookup v best ≡ some c → ends_search fs c.end ≡ false
    pub reaches :
        (c : ChunkRange) (q : ℕ)
        → lookup v best ≡ some c
        → In q cuts
        → v < q
        → within_reach q c.end ≡ true
        → elem q visited ≡ true

  module _ (chunks : List ChunkRange) (has_best : (c : ChunkRange) → In c chunks → HasBest best c)
      (starts_are_cuts : (p : ℕ) (c : ChunkRange) → lookup p best ≡ some c → In p cuts)
      (goal_is_cut : (p : ℕ) → is_goal fs p ≡ true → In p cuts) where
    best_at :
        (c : ChunkRange) (p : ℕ)
        → In c chunks
        → c.start ≡ p
        → (b : ChunkRange) × (lookup p best ≡ some b) × (reaches_further c.end b.end ≡ false)
    best_at c p i e = elim (Option-cases (lookup p best)) [
      | inl missing ↦ absurd (
          subst (IsAtLeast c.end) missing
            (subst (λ k. IsAtLeast c.end (lookup k best)) e (has_best c i)))
      | inr (b, l) ↦ (
        b,
        l,
        subst (IsAtLeast c.end) l (subst (λ k. IsAtLeast c.end (lookup k best)) e (has_best c i)),
      )
    ]

    Chain-cut : {p : ℕ} → Chain chunks fs p → In p cuts
    Chain-cut (at_end {p} g) = goal_is_cut p g
    Chain-cut (to_eof {p} c i e s) = let (b, l, _) = best_at c p i e in starts_are_cuts p b l
    Chain-cut (hop {p} c i e h w r) = let (b, l, _) = best_at c p i e in starts_are_cuts p b l

    -- So a chain from a seen offset would end the search.
    pub not-Chain :
        (visited : List ℕ)
        → ((v : ℕ) → elem v visited ≡ true → IsClosed visited v)
        → {p : ℕ} → Chain chunks fs p
        → elem p visited ≡ true
        → ⊥
    not-Chain visited closed (at_end {p} g) v = cc ((closed p v).not_goal)
    not-Chain visited closed (to_eof {p} c i e s) v =
        let (b, l, r) = best_at c p i e in
        ends_search_further fs c.end b.end s r ((closed p v).not_eof b l)
    not-Chain visited closed (hop {p} {q} c i e h w rest) v =
        let (b, l, r) = best_at c p i e in
        not-Chain visited closed rest
          ((closed p v).reaches b q l (Chain-cut rest) h (within_reach_further q c.end b.end w r))
