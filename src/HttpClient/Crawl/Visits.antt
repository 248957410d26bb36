-- ===== src/HttpClient/Crawl/Visits.antt =====
-- The rounds of a crawl as a relation on its state, and the tasks that they take.
use mathlib.Core.Option.{some-injective}
use sdownload.Exceptions.{ok}
use sdownload.Prelude.{
  Bool-cases, ltb, Option-cases, All-map, IsDistinct-append, In, IsDistinct, In-append_cases,
  map-append, refl, map, subst, ap, sym, ℕ, zero, suc, ◌+◌, ◌≤◌, Bool, true, ◌==◌, ◌≡◌, ◌⊎◌, Option,
  some, List, [], ◌∷◌, arith, inl, inr, All, All-append,
}
use sdownload.Models.Text.{Text}
use sdownload.Urls.{UrlLibrary, NavigableConfig}
use sdownload.HttpClient.Extractors.{MatchLibrary}
use sdownload.HttpClient.Explorer.{Server}
use sdownload.HttpClient.Crawl.{
  DiscoveryTask, Frontier, Crawl, process, crawl_from, start, is_match, list_resources,
}
use sdownload.HttpClient.Crawl.Grows.{Grows, IsNext, process-Grows, task_url}

module _ (urls : UrlLibrary) (config : NavigableConfig) (library : MatchLibrary) (server : Server)
    (max_size_bytes : ℕ) (pattern : Option (Text → Bool)) (level : ℕ) where
  abbrev after : DiscoveryTask → Frontier → Crawl → Crawl
  after task a c = process urls config library server max_size_bytes pattern level task a c

  -- The rounds from one state to another, with the tasks that they took from the queue.
  pub data Crawls : Crawl → List DiscoveryTask → Crawl → Type 0 where
    stays : (c : Crawl) → Crawls c [] c
    takes :
        (c : Crawl) (task : DiscoveryTask) (seen : List Text) (queue : List DiscoveryTask)
        (tasks : List DiscoveryTask) (final : Crawl)
        → c.frontier ≡ (seen, task ∷ queue)
        → Crawls (after task (seen, queue) c) tasks final
        → Crawls c (task ∷ tasks) final

  -- The loop's rounds, up to where the queue is empty.
  pub crawl_from-Crawls :
      (fuel : ℕ) (frontier : Frontier) (c final : Crawl)
      → c.frontier ≡ frontier
      → crawl_from urls config library server max_size_bytes pattern level fuel frontier c
        ≡ some final
      → (tasks : List DiscoveryTask) × Crawls c tasks final × (final.frontier.1 ≡ [])
  unfolding crawl_from
  crawl_from-Crawls zero frontier c final same e = absurd cc
  crawl_from-Crawls (suc fuel) (seen, []) c final same e =
      subst (λ f. (tasks : List DiscoveryTask) × Crawls c tasks f × (f.frontier.1 ≡ []))
        (some-injective _ _ e) ([], stays c, ap (λ a. a.1) same)
  crawl_from-Crawls (suc fuel) (seen, task ∷ queue) c final same e =
      let next = after task (seen, queue) c in
      let (tasks, steps, ends) = crawl_from-Crawls fuel next.frontier next final refl e in
      (task ∷ tasks, takes c task seen queue tasks final same steps, ends)

  -- The queue's tasks are different and seen, one level deeper than the crawl goes at most, and there
  -- for files alone and for URLs that match.
  abbrev IsPlanned : DiscoveryTask → Type 0
  IsPlanned task =
      (task.level ≤ level + 1)
      × (task.process_only_files ≡ (task.level == level + 1))
      × ((task.level ≡ level + 1) → is_match pattern task.url ≡ true)

  abbrev IsFrontier : Frontier → Type 0
  IsFrontier (seen, queue) =
      IsDistinct (map task_url queue)
      × ((u : Text) → In u (map task_url queue) → In u seen)
      × All IsPlanned queue

  next-IsPlanned : (task next : DiscoveryTask) → IsNext pattern level task next → IsPlanned next
  next-IsPlanned task next (deeper, bound, only_files, matches) =
      (omega arith, ground (arith, only_files), λ e. matches (omega (arith, e)))

  grown-IsFrontier :
      (task : DiscoveryTask) (seen : List Text) (queue : List DiscoveryTask) (b : Frontier)
      → IsFrontier (seen, task ∷ queue)
      → Grows (IsNext pattern level task) (seen, queue) b
      → IsFrontier b
  grown-IsFrontier task seen queue (seen1, queue1) ((alone, distinct), known, (planned, rest))
        (new, e, distinct1, unseen, kept, known1, holds) =
      rw e (
        rw (map-append task_url queue new) (
            IsDistinct-append (map task_url queue) (map task_url new) distinct distinct1
              (λ u i j. unseen u j (known u (inr i)))),
        (λ u i.
            elim (In-append_cases u (map task_url queue) (map task_url new)
              (rw (map-append task_url queue new) at i)) [
                | inl l ↦ kept u (known u (inr l))
                | inr r ↦ known1 u r
              ]),
        All-append IsPlanned queue new rest (All-map (next-IsPlanned task) new holds),
      )

  -- A URL that is not queued is new to every later round.
  abbrev Later : Frontier → Text → Type 0
  Later (seen, queue) u = In u (map task_url queue) ⊎ (¬ In u seen)

  earlier-Later :
      (task : DiscoveryTask) (seen : List Text) (queue : List DiscoveryTask) (b : Frontier)
      (u : Text)
      → Grows (IsNext pattern level task) (seen, queue) b
      → Later b u
      → Later (seen, queue) u
  earlier-Later task seen queue (seen1, queue1) u (new, e, distinct1, unseen, kept, known1, holds)
        (inl i) =
      elim (In-append_cases u (map task_url queue) (map task_url new)
        (rw (map-append task_url queue new) at (rw e at i))) [
          | inl l ↦ inl l
          | inr r ↦ inr (unseen u r)
        ]
  earlier-Later task seen queue (seen1, queue1) u (new, e, distinct1, unseen, kept, known1, holds)
        (inr fresh) =
      inr (λ s. fresh (kept u s))

  -- What the tasks of a run are.
  abbrev IsVisit : Frontier → List DiscoveryTask → Type 0
  IsVisit a tasks =
      IsDistinct (map task_url tasks)
      × ((u : Text) → In u (map task_url tasks) → Later a u)
      × All IsPlanned tasks

  taken-IsVisit :
      (task : DiscoveryTask) (seen : List Text) (queue : List DiscoveryTask) (b : Frontier)
      (tasks : List DiscoveryTask)
      → IsFrontier (seen, task ∷ queue)
      → Grows (IsNext pattern level task) (seen, queue) b
      → IsVisit b tasks
      → IsVisit (seen, task ∷ queue) (task ∷ tasks)
  taken-IsVisit task seen queue b tasks ((alone, distinct), known, (planned, rest)) grows
        (visited, later, fit) =
      let back : (u : Text) → In u (map task_url tasks) → Later (seen, queue) u =
        λ u i. earlier-Later task seen queue b u grows (later u i) in
      (
        (
          (λ i. elim (back task.url i) [
            | inl queued ↦ alone queued
            | inr fresh ↦ fresh (known task.url (inl refl))
          ]),
          visited,
        ),
        (λ u i. elim i [
          | inl same ↦ inl (inl same)
          | inr j ↦ elim (back u j) [ inl queued ↦ inl (inr queued) | inr fresh ↦ inr fresh ]
        ]),
        (planned, fit),
      )

  Crawls-IsVisit :
      (c : Crawl) (tasks : List DiscoveryTask) (final : Crawl)
      → Crawls c tasks final
      → IsFrontier c.frontier
      → IsVisit c.frontier tasks
  Crawls-IsVisit c tasks final (stays _) h = (ground arith, (λ u i. absurd i), ground arith)
  Crawls-IsVisit c _ final (takes _ task seen queue tasks _ same steps) h =
      let grows =
        process-Grows pattern level urls config library server max_size_bytes task (seen, queue)
          c in
      let here : IsFrontier (seen, task ∷ queue) = subst IsFrontier same h in
      let next = after task (seen, queue) c in
      let visits =
        Crawls-IsVisit next tasks final steps
          (grown-IsFrontier task seen queue next.frontier here grows) in
      subst (λ a. IsVisit a (task ∷ tasks)) (sym same)
        (taken-IsVisit task seen queue next.frontier tasks here grows visits)

  Crawls-start :
      (url : Text) (tasks : List DiscoveryTask) (final : Crawl)
      → 1 ≤ level
      → Crawls (start urls config library server max_size_bytes pattern level url) tasks final
      → IsDistinct (map task_url tasks) × All IsPlanned tasks
  Crawls-start url tasks final h steps =
      let c = start urls config library server max_size_bytes pattern level url in
      let (distinct, later, planned) = Crawls-IsVisit c tasks final steps (
        ((λ i. i), ground arith),
        (λ u i. i),
        ((omega arith, ground arith, (λ e. absurd (omega (arith, e)))), ground arith),
      ) in
      (distinct, planned)

  -- A crawl that returns has run its rounds from the first task until the queue was empty. Of the tasks
  -- that it took, which are all that it explored, no two have the same URL, and none lies more than one
  -- level below the last, and there only for files and for URLs that match the pattern.
  pub list_resources-visits :
      (fuel : ℕ) (url : Text) (yielded : List Text)
      → list_resources urls config library server max_size_bytes pattern level fuel url
        ≡ some (ok yielded)
      → (tasks : List DiscoveryTask) × (final : Crawl) × Crawls
          (start urls config library server max_size_bytes pattern level url)
          tasks
          final
        × (final.frontier.1 ≡ [])
        × (final.yielded ≡ yielded)
        × IsDistinct (map (λ task. task.url) tasks)
        × All
            (λ task.
              (task.level ≤ level + 1)
              × (task.process_only_files ≡ (task.level == level + 1))
              × ((task.level ≡ level + 1) → is_match pattern task.url ≡ true))
            tasks
  unfolding list_resources
  list_resources-visits fuel url yielded e =
      let c = start urls config library server max_size_bytes pattern level url in
      elim (Bool-cases (ltb level 1)) [
        | inl low ↦ absurd (let bad = rw low at e in cc)
        | inr low ↦
            elim (Option-cases (
              crawl_from urls config library server max_size_bytes pattern level fuel c.frontier
                c)) [
                  | inl s ↦ absurd (let bad = rw (low, s) at e in cc)
                  | inr (final, s) ↦
                      let (tasks, steps, ends) = crawl_from-Crawls fuel c.frontier c final refl s in
                      let (distinct, planned) =
                        Crawls-start url tasks final (ground (arith, low)) steps in
                      (
                        tasks,
                        final,
                        steps,
                        ends,
                        (let same = rw (low, s) at e in cc),
                        distinct,
                        planned,
                      )
                ]
      ]
