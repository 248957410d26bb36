-- ===== src/Ranges/Coverage/Best.antt =====
-- The dictionary of the best chunk for each start.
use sdownload.Prelude.{
  none, sym, subst, inl, inr, ◌⊎◌, ℕ, ◌≡◌, List, [], ◌∷◌, arith, In, some, Option, false,
}
use sdownload.Prelude.Dict.{Dict, lookup, lookup-insert, nat_eq}
use sdownload.Models.Range.{ChunkRange}
use sdownload.Ranges.Coverage.{reaches_further, keep_best, best_chunk_at}

-- What is found under a start is a chunk with that start.
abbrev pub IsFrom : List ChunkRange → Dict ℕ ChunkRange → Type 0
IsFrom chunks best = (p : ℕ) (c : ChunkRange) → lookup p best ≡ some c → (c.start ≡ p) × In c chunks

-- The chunk under its start reaches at least as far as `c`.
abbrev pub IsAtLeast : Option ℕ → Option ChunkRange → Type 0
IsAtLeast chunk_end none = ⊥
IsAtLeast chunk_end (some b) = reaches_further chunk_end b.end ≡ false

abbrev pub HasBest : Dict ℕ ChunkRange → ChunkRange → Type 0
HasBest best c = IsAtLeast c.end (lookup c.start best)

reaches_further_trans :
    (a b c : Option ℕ)
    → reaches_further a b ≡ false
    → reaches_further b c ≡ false
    → reaches_further a c ≡ false
reaches_further_trans a b c h k = ground arith

lookup-keep_best :
    (best : Dict ℕ ChunkRange) (c : ChunkRange) (p : ℕ) (b : ChunkRange)
    → lookup p (keep_best best c) ≡ some b
    → ((b ≡ c) × (c.start ≡ p)) ⊎ (lookup p best ≡ some b)
lookup-keep_best best c p b h = ground (arith, lookup-insert c.start p c best)

keep_best-HasBest_new : (best : Dict ℕ ChunkRange) (c : ChunkRange) → HasBest (keep_best best c) c
keep_best-HasBest_new best c = ground (arith, lookup-insert c.start c.start c best)

keep_best-HasBest :
    (best : Dict ℕ ChunkRange) (c d : ChunkRange) → HasBest best d → HasBest (keep_best best c) d
keep_best-HasBest best c d h = ground (arith, lookup-insert c.start d.start c best)

best_chunk_at-HasBest_old :
    (best : Dict ℕ ChunkRange) (chunks : List ChunkRange) (d : ChunkRange)
    → HasBest best d
    → HasBest (best_chunk_at best chunks) d
unfolding best_chunk_at
best_chunk_at-HasBest_old best [] d h = h
best_chunk_at-HasBest_old best (c ∷ cs) d h =
    best_chunk_at-HasBest_old (keep_best best c) cs d (keep_best-HasBest best c d h)

-- Of the chunks that start at one offset, one that reaches furthest is kept.
pub best_chunk_at-HasBest :
    (best : Dict ℕ ChunkRange) (chunks : List ChunkRange) (d : ChunkRange)
    → In d chunks
    → HasBest (best_chunk_at best chunks) d
unfolding best_chunk_at
best_chunk_at-HasBest best [] d h = absurd h
best_chunk_at-HasBest best (c ∷ cs) d (inl e) =
    best_chunk_at-HasBest_old (keep_best best c) cs d
      (subst (HasBest (keep_best best c)) (sym e) (keep_best-HasBest_new best c))
best_chunk_at-HasBest best (c ∷ cs) d (inr h) = best_chunk_at-HasBest (keep_best best c) cs d h

best_chunk_at-source :
    (best : Dict ℕ ChunkRange) (chunks : List ChunkRange) (p : ℕ) (b : ChunkRange)
    → lookup p (best_chunk_at best chunks) ≡ some b
    → ((b.start ≡ p) × In b chunks) ⊎ (lookup p best ≡ some b)
unfolding best_chunk_at
best_chunk_at-source best [] p b h = inr h
best_chunk_at-source best (c ∷ cs) p b h =
    ground (arith, best_chunk_at-source (keep_best best c) cs p b h, lookup-keep_best best c p b)

-- What is kept for an offset is one of the chunks, and starts there.
pub best_chunk_at-IsFrom : (chunks : List ChunkRange) → IsFrom chunks (best_chunk_at [] chunks)
best_chunk_at-IsFrom chunks p b h = ground (arith, best_chunk_at-source [] chunks p b h)
