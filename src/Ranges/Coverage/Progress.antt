-- ===== src/Ranges/Coverage/Progress.antt =====
-- What a round of the search adds, and the measure that it lowers.
use sdownload.Prelude.{
  ◌∙◌, sym, ℕ, ◌≡◌, true, false, In, List, [], ◌∷◌, ◌++◌, ◌<◌, ◌≤◌, ◌+◌, Option, ◌⊎◌, inl, inr,
  refl, suc, Bool-cases, arith, length, length-append, In-append_left, In-append_right,
}
use sdownload.Models.Range.{ChunkRange, ChunkFragment}
use sdownload.Ranges.Coverage.{elem, is_goal, fragment, Queue, continues, try_cuts}
use sdownload.Ranges.Coverage.Rounds.{try_cuts_nil, try_cuts_seen, try_cuts_goal, try_cuts_push}

abbrev pub positions : Queue → List ℕ
positions [] = []
positions ((p, path) ∷ q) = p ∷ positions q

positions-append :
    (q : Queue) (p : ℕ) (path : List ChunkFragment)
    → positions (q ++ (p, path) ∷ []) ≡ positions q ++ p ∷ []
positions-append [] p path = refl
positions-append (e ∷ q) p path = ground (arith, positions-append q p path)

pub continues-injective :
    {v v' : List ℕ} {q q' : Queue} → continues v q ≡ continues v' q' → (v ≡ v') × (q ≡ q')
continues-injective h = (cc, cc)

-- The cut points that are not seen yet.
abbrev pub unseen : List ℕ → List ℕ → ℕ
unseen visited [] = 0
unseen visited (c ∷ cs) =
    let rest = unseen visited cs in elim (elem c visited) [ true ↦ rest | false ↦ suc rest ]

pub unseen-le : (visited cs : List ℕ) → unseen visited cs ≤ length cs
unseen-le visited [] = omega arith
unseen-le visited (c ∷ cs) = ground (arith, unseen-le visited cs)

unseen-cons_le : (a : ℕ) (visited cs : List ℕ) → unseen (a ∷ visited) cs ≤ unseen visited cs
unseen-cons_le a visited [] = omega arith
unseen-cons_le a visited (c ∷ cs) = ground (arith, unseen-cons_le a visited cs)

unseen-cons_lt :
    (a : ℕ) (visited cs : List ℕ)
    → In a cs
    → elem a visited ≡ false
    → unseen (a ∷ visited) cs < unseen visited cs
unseen-cons_lt a visited [] i h = absurd i
unseen-cons_lt a visited (c ∷ cs) (inl e) h = ground (arith, unseen-cons_le a visited cs)
unseen-cons_lt a visited (c ∷ cs) (inr i) h = ground (arith, unseen-cons_lt a visited cs i h)

module _ (cuts : List ℕ) where
  abbrev pub work : List ℕ → Queue → ℕ
  work visited queue = unseen visited cuts + length queue

  -- The round kept what was seen and queued, and what it newly saw is queued; no more work is left.
  pub record Extends (visited : List ℕ) (queue : Queue) (visited' : List ℕ) (queue' : Queue)
      : Type 0 where
    pub seen : (v : ℕ) → elem v visited ≡ true → elem v visited' ≡ true
    pub queued : (v : ℕ) → In v (positions queue) → In v (positions queue')
    pub new : (v : ℕ) → elem v visited' ≡ true → (elem v visited ≡ true) ⊎ In v (positions queue')
    pub less : work visited' queue' ≤ work visited queue

  pub Extends-refl : (visited : List ℕ) (queue : Queue) → Extends visited queue visited queue
  Extends-refl visited queue = record {
    seen = λ v h. h;
    queued = λ v h. h;
    new = λ v h. inl h;
    less = omega arith;
  }

  Extends-push :
      (cp : ℕ) (path : List ChunkFragment) (visited : List ℕ) (queue : Queue)
      → In cp cuts
      → elem cp visited ≡ false
      → Extends visited queue (cp ∷ visited) (queue ++ (cp, path) ∷ [])
  Extends-push cp path visited queue i fresh = record {
    seen = λ v h. ground arith;
    queued =
        λ v h. rw (positions-append queue cp path) (In-append_left v (positions queue) (cp ∷ []) h);
    new = λ v h. elim (Bool-cases (elem v visited)) [
      | inl old ↦ inl old
      | inr fresh_v ↦ inr (
          rw (positions-append queue cp path)
            (In-append_right v (positions queue) (cp ∷ []) (inl (ground arith))))
    ];
    less =
        omega
          (arith, unseen-cons_lt cp visited cuts i fresh, length-append queue ((cp, path) ∷ []));
  }

  Extends-trans :
      (v v' v'' : List ℕ) (q q' q'' : Queue)
      → Extends v q v' q'
      → Extends v' q' v'' q''
      → Extends v q v'' q''
  Extends-trans v v' v'' q q' q'' a b = record {
    seen = λ x h. b.seen x (a.seen x h);
    queued = λ x h. b.queued x (a.queued x h);
    new = λ x h. elim (b.new x h) [
      | inr i ↦ inr i
      | inl old ↦ elim (a.new x old) [ inl older ↦ inl older | inr i ↦ inr (b.queued x i) ]
    ];
    less = omega (arith, a.less, b.less);
  }

  -- A loop over cuts that goes on has seen all of them.
  pub try_cuts-Extends :
      (fs : Option ℕ) (c : ChunkRange) (p : ℕ) (path : List ChunkFragment) (cs visited : List ℕ)
      (queue : Queue) (visited' : List ℕ) (queue' : Queue)
      → ((m : ℕ) → In m cs → In m cuts)
      → try_cuts fs c p path cs visited queue ≡ continues visited' queue'
      → Extends visited queue visited' queue' × ((m : ℕ) → In m cs → elem m visited' ≡ true)
  try_cuts-Extends fs c p path [] visited queue visited' queue' sub e =
      let (ev, eq) = continues-injective (sym (try_cuts_nil fs c p path visited queue) ∙ e) in
      (rw (← ev, ← eq) (Extends-refl visited queue), λ m i. absurd i)
  try_cuts-Extends fs c p path (cp ∷ cs) visited queue visited' queue' sub e =
      elim (Bool-cases (elem cp visited)) [
        | inl old ↦
            let (ext, all) =
              try_cuts-Extends fs c p path cs visited queue visited' queue' (λ m i. sub m (inr i))
                (sym (try_cuts_seen fs c p path cp cs visited queue old) ∙ e) in
            (ext, λ m i. elim i [ inl h ↦ rw h (ext.seen cp old) | inr j ↦ all m j ])
        | inr fresh ↦ elim (Bool-cases (is_goal fs cp)) [
          | inl done ↦ cc (try_cuts_goal fs c p path cp cs visited queue fresh done)
          | inr more ↦
              let new = path ++ fragment c p cp ∷ [] in
              let (ext, all) =
                try_cuts-Extends fs c p path cs (cp ∷ visited) (queue ++ (cp, new) ∷ []) visited'
                  queue' (λ m i. sub m (inr i))
                  (sym (try_cuts_push fs c p path cp cs visited queue fresh more) ∙ e) in
              (
                Extends-trans visited (cp ∷ visited) visited' queue (queue ++ (cp, new) ∷ []) queue'
                    (Extends-push cp new visited queue (sub cp (inl refl)) fresh) ext,
                λ m i. elim i [ inl h ↦ rw h (ext.seen cp (ground arith)) | inr j ↦ all m j ],
              )
        ]
      ]
