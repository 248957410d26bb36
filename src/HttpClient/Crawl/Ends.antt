-- ===== src/HttpClient/Crawl/Ends.antt =====
-- The crawl comes to its end for every server.
use sdownload.Prelude.{
  refl, subst, ap, ◌∙◌, sym, append_assoc, append-nil, All-map, ℕ, zero, suc, ◌+◌, ◌≤◌, ◌<◌, Bool,
  false, ◌≡◌, Option, some, List, [], ◌∷◌, ◌++◌, arith, All, All-append, ltb,
}
use sdownload.Models.Text.{Text}
use sdownload.Exceptions.{ok}
use sdownload.Urls.{UrlLibrary, NavigableConfig}
use sdownload.HttpClient.Extractors.{MatchLibrary}
use sdownload.HttpClient.Explorer.{Server}
use sdownload.HttpClient.Crawl.{
  DiscoveryTask, Frontier, Crawl, process, crawl_from, start, list_resources,
}
use sdownload.HttpClient.Crawl.Grows.{IsNext, process-Grows}

module _ (urls : UrlLibrary) (config : NavigableConfig) (library : MatchLibrary) (server : Server)
    (max_size_bytes : ℕ) (pattern : Option (Text → Bool)) (level : ℕ) where
  -- Fuel that is enough from here, and the state that it leads to.
  abbrev Ends : Frontier → Crawl → Type 0
  Ends a c =
      (fuel : ℕ) × (final : Crawl) × (crawl_from urls config library server max_size_bytes pattern
          level fuel a c
        ≡ some final)

  -- `n` levels below the task's are enough to be past the last one.
  abbrev IsAbove : ℕ → DiscoveryTask → Type 0
  IsAbove n task = level < task.level + n

  abbrev next_of : DiscoveryTask → Frontier → Crawl → Crawl
  next_of task a c = process urls config library server max_size_bytes pattern level task a c

  empty-Ends : (seen : List Text) (c : Crawl) → Ends (seen, []) c
  unfolding crawl_from
  empty-Ends seen c = (1, c, refl)

  task-Ends :
      (task : DiscoveryTask) (seen : List Text) (queue : List DiscoveryTask) (c : Crawl)
      → Ends (next_of task (seen, queue) c).frontier (next_of task (seen, queue) c)
      → Ends (seen, task ∷ queue) c
  unfolding crawl_from
  task-Ends task seen queue c (fuel, final, e) = (suc fuel, final, e)

  -- A task leads to tasks one level deeper, behind the queue.
  round-Ends :
      (n : ℕ) (task : DiscoveryTask) (seen : List Text) (queue : List DiscoveryTask) (c : Crawl)
      → IsAbove (suc n) task
      → ((seen1 : List Text) (new : List DiscoveryTask) (c1 : Crawl)
          → All (IsAbove n) new
          → Ends (seen1, queue ++ new) c1)
      → Ends (seen, task ∷ queue) c
  round-Ends n task seen queue c h rest =
      let next = next_of task (seen, queue) c in
      let (new, e, distinct, unseen, kept, known, holds) =
        process-Grows pattern level urls config library server max_size_bytes task (seen, queue)
          c in
      let deeper : All (IsAbove n) new =
        All-map (λ t (same, bound, only_files, matches). omega (arith, h)) new holds in
      task-Ends task seen queue c
        (subst (λ q. Ends (next.frontier.0, q) next) (sym e) (rest next.frontier.0 new next deeper))

  no_next :
      (task : DiscoveryTask) (new : List DiscoveryTask)
      → IsAbove 0 task
      → All (IsNext pattern level task) new
      → new ≡ []
  no_next task [] h holds = refl
  no_next task (next ∷ new) h ((deeper, bound, only_files, matches), holds) =
      absurd (omega (arith, h, bound))

  -- Tasks past the last level add nothing.
  last-Ends :
      (seen : List Text) (queue : List DiscoveryTask) (c : Crawl)
      → All (IsAbove 0) queue
      → Ends (seen, queue) c
  last-Ends seen [] c h = empty-Ends seen c
  last-Ends seen (task ∷ queue) c (h, rest) =
      let next = next_of task (seen, queue) c in
      let (new, e, distinct, unseen, kept, known, holds) =
        process-Grows pattern level urls config library server max_size_bytes task (seen, queue)
          c in
      let same : next.frontier.1 ≡ queue =
        e ∙ (ap (λ q. queue ++ q) (no_next task new h holds) ∙ append-nil queue) in
      task-Ends task seen queue c (
        subst (λ q. Ends (next.frontier.0, q) next) (sym same)
          (last-Ends next.frontier.0 queue next rest))

  -- The tasks in front have `n + 1` levels to go, those behind them `n`.
  levels-Ends :
      (n : ℕ) (seen : List Text) (front back : List DiscoveryTask) (c : Crawl)
      → All (IsAbove (suc n)) front
      → All (IsAbove n) back
      → Ends (seen, front ++ back) c
  levels-Ends zero seen [] back c f b = last-Ends seen back c b
  levels-Ends (suc n) seen [] back c f b =
      subst (λ q. Ends (seen, q) c) (append-nil back)
        (levels-Ends n seen back [] c b (ground arith))
  levels-Ends n seen (task ∷ front) back c (h, f) b =
      round-Ends n task seen (front ++ back) c h (λ seen1 new c1 k.
        subst (λ q. Ends (seen1, q) c1) (sym (append_assoc front back new))
          (levels-Ends n seen1 front (back ++ new) c1 f (All-append (IsAbove n) back new b k)))

  -- The crawl ends, however the server answers and whatever the pages link to.
  pub list_resources_ends :
      (url : Text)
      → 1 ≤ level
      → (fuel : ℕ) × (yielded : List Text) × (list_resources urls config library server
            max_size_bytes pattern level fuel url
          ≡ some (ok yielded))
  unfolding list_resources
  list_resources_ends url h =
      let c = start urls config library server max_size_bytes pattern level url in
      let (fuel, final, e) =
        levels-Ends level c.frontier.0 c.frontier.1 [] c (omega arith, ground arith)
          (ground arith) in
      let positive : ltb level 1 ≡ false = ground arith in
      (fuel, final.yielded, rw (positive, e) refl)
