-- ===== src/Ranges/Coverage/Sound.antt =====
-- A path that `calculate_optimal_coverage` returns reads the whole file, each byte once.
use sdownload.Prelude.Sort.{IsDescending}
use sdownload.Prelude.{
  filter, In-reverse_cases, ◌∙◌, In-filter_cases, ◌&&◌, ltb, none, reverse, refl, ℕ, ◌+◌, ◌≤◌, ◌<◌,
  ◌≡◌, ◌⊎◌, inl, inr, true, false, Option, some, List, [], ◌∷◌, ◌++◌, arith, In, Bool-cases,
}
use sdownload.Models.Range.{ChunkRange, ChunkFragment}
use sdownload.Ranges.Coverage.{
  ends_search, reachable_cuts, within_reach, is_goal, fragment, Queue, Round, returns, continues,
  try_cuts, elem,
}
use sdownload.Ranges.Coverage.Rounds.{try_cuts_nil, try_cuts_seen, try_cuts_goal, try_cuts_push}
use sdownload.Ranges.Coverage.Path.{Reads, Reads-snoc, fragment-ReadsFrom}

module _ (chunks : List ChunkRange) (n : ℕ) where
  -- A queued path reads the bytes before its position, or the position is behind the end.
  abbrev pub IsQueued : ℕ → List ChunkFragment → Type 0
  IsQueued p path = (n < p) ⊎ Reads chunks n 0 path p

  abbrev pub AreQueued : Queue → Type 0
  AreQueued [] = Unit
  AreQueued ((p, path) ∷ q) = IsQueued p path × AreQueued q

  AreQueued-snoc :
      (q : Queue) (p : ℕ) (path : List ChunkFragment)
      → AreQueued q
      → IsQueued p path
      → AreQueued (q ++ (p, path) ∷ [])
  AreQueued-snoc [] p path h k = (k, tt)
  AreQueued-snoc (e ∷ q) p path h k = (h.0, AreQueued-snoc q p path h.1 k)

  -- The search returns a path that reads the file, or goes on with good entries, the end unseen.
  abbrev pub IsSound : Option ℕ → Round → Type 0
  IsSound fs (returns path) = Reads chunks n 0 path n
  IsSound fs (continues visited queue) =
      AreQueued queue × (is_goal fs n ≡ true → elem n visited ≡ false)

  -- The entry that a cut of a closed chunk makes.
  pub cut-IsQueued :
      (c : ChunkRange) (e p cp : ℕ) (path : List ChunkFragment)
      → c.end ≡ some e
      → In c chunks
      → c.start ≡ p
      → p < cp
      → cp ≤ e + 1
      → IsQueued p path
      → IsQueued cp (path ++ fragment c p cp ∷ [])
  cut-IsQueued c e p cp path he hc hs hp hcp (inl far) = inl (omega arith)
  cut-IsQueued c e p cp path he hc hs hp hcp (inr h) =
      let (ends, reads) = fragment-ReadsFrom chunks n c e p cp he hc hs hp hcp in
      inr (rw ends at (Reads-snoc chunks n 0 path p (fragment c p cp) h reads))

  -- A loop over cuts whose entries are good ends well.
  pub try_cuts-IsSound :
      (fs : Option ℕ) (c : ChunkRange) (p : ℕ) (path : List ChunkFragment) (cuts visited : List ℕ)
      (queue : Queue)
      → ((m : ℕ) → is_goal fs m ≡ true → m ≡ n)
      → ((cp : ℕ) → In cp cuts → IsQueued cp (path ++ fragment c p cp ∷ []))
      → IsSound fs (continues visited queue)
      → IsSound fs (try_cuts fs c p path cuts visited queue)
  try_cuts-IsSound fs c p path [] visited queue goal entries h =
      rw (try_cuts_nil fs c p path visited queue) h
  try_cuts-IsSound fs c p path (cp ∷ cuts) visited queue goal entries h =
      let new = path ++ fragment c p cp ∷ [] in
      let entry : IsQueued cp new = entries cp (inl refl) in
      let rest = λ (v : List ℕ) (q : Queue) (k : IsSound fs (continues v q)).
        try_cuts-IsSound fs c p path cuts v q goal (λ m i. entries m (inr i)) k in
      elim (Bool-cases (elem cp visited)) [
        | inl seen ↦
            rw (try_cuts_seen fs c p path cp cuts visited queue seen) (rest visited queue h)
        | inr fresh ↦ elim (Bool-cases (is_goal fs cp)) [
          | inl done ↦
              rw (try_cuts_goal fs c p path cp cuts visited queue fresh done)
                (ground (arith, goal cp done))
          | inr more ↦ rw (try_cuts_push fs c p path cp cuts visited queue fresh more) (
              rest (cp ∷ visited) (queue ++ (cp, new) ∷ [])
                (AreQueued-snoc queue cp new h.0 entry, λ g. ground (arith, h.1 g)))
        ]
      ]

  -- From the furthest cut down, a chunk without end comes to the end of the file first.
  pub try_cuts_open :
      (fs : Option ℕ) (c : ChunkRange) (p : ℕ) (path : List ChunkFragment) (cuts visited : List ℕ)
      (queue : Queue)
      → ((m : ℕ) → is_goal fs m ≡ true → m ≡ n)
      → is_goal fs n ≡ true
      → IsDescending cuts
      → In n cuts
      → elem n visited ≡ false
      → try_cuts fs c p path cuts visited queue ≡ returns (path ++ fragment c p n ∷ [])
  try_cuts_open fs c p path [] visited queue goal g down i unseen = absurd i
  try_cuts_open fs c p path (cp ∷ cuts) visited queue goal g down (inl e) unseen =
      rw (← e) (try_cuts_goal fs c p path n cuts visited queue unseen g)
  try_cuts_open fs c p path (cp ∷ cuts) visited queue goal g down (inr i) unseen =
      elim (Bool-cases (elem cp visited)) [
        | inl seen ↦
            try_cuts_seen fs c p path cp cuts visited queue seen
            ∙ try_cuts_open fs c p path cuts visited queue goal g down.1 i unseen
        | inr fresh ↦ elim (Bool-cases (is_goal fs cp)) [
          | inl done ↦ rw (goal cp done) (try_cuts_goal fs c p path n cuts visited queue unseen g)
          | inr more ↦
              try_cuts_push fs c p path cp cuts visited queue fresh more
              ∙ try_cuts_open fs c p path cuts (cp ∷ visited)
                  (queue ++ (cp, path ++ fragment c p cp ∷ []) ∷ []) goal g down.1 i (ground arith)
        ]
      ]

  -- The size of the file is `n`; if it is not given, every chunk starts before `n`.
  abbrev pub IsTarget : Option ℕ → Type 0
  IsTarget none = (c : ChunkRange) → In c chunks → c.start < n
  IsTarget (some m) = m ≡ n

  pub IsTarget-goal : (fs : Option ℕ) → IsTarget fs → (m : ℕ) → is_goal fs m ≡ true → m ≡ n
  IsTarget-goal none t m h = cc
  IsTarget-goal (some k) t m h = ground arith

  pub IsTarget-known :
      (fs : Option ℕ) → IsTarget fs → ends_search fs none ≡ false → is_goal fs n ≡ true
  IsTarget-known none t h = cc
  IsTarget-known (some k) t h = ground arith

  pub IsTarget-unknown :
      (fs : Option ℕ) (c : ChunkRange)
      → IsTarget fs
      → ends_search fs c.end ≡ true
      → In c chunks
      → c.start < n
  IsTarget-unknown none c t h i = t c i
  IsTarget-unknown (some k) c t h i = cc

  -- The reachable cuts of a chunk lie behind its start and within its reach.
  pub cut_bounds :
      (cuts : List ℕ) (p cp : ℕ) (end : Option ℕ)
      → In cp (reverse (reachable_cuts cuts p end))
      → (p < cp) × (within_reach cp end ≡ true)
  cut_bounds cuts p cp end i =
      let q = λ (m : ℕ). ltb p m && within_reach m end in
      ground (arith, In-filter_cases q cp cuts (In-reverse_cases cp (filter q cuts) i))
