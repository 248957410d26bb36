-- ===== src/HttpClient/Crawl/Grows.antt =====
-- What one round of the crawl adds to the seen URLs and to the queue.
use sdownload.Prelude.{
  In, IsDistinct, IsDistinct-append, In-append_cases, map-append, refl, map, not, subst, ap, ◌∙◌,
  sym, append_assoc, append-nil, ltb, ℕ, ◌+◌, ◌≤◌, Bool, true, false, ◌&&◌, ◌==◌, ◌≡◌, Option, List,
  [], ◌∷◌, ◌++◌, arith, Bool-cases, inl, inr, All, All-append,
}
use sdownload.Models.Text.{Text}
use sdownload.Models.Text.Search.{is_among}
use sdownload.Urls.{UrlLibrary, NavigableConfig}
use sdownload.HttpClient.Extractors.{ExtractedLink, MatchLibrary}
use sdownload.HttpClient.Extracted.{is_among_iff}
use sdownload.HttpClient.Explorer.{Server, DiscoveryResult, explore_resource}
use sdownload.HttpClient.Crawl.{
  DiscoveryTask, Frontier, Crawl, is_match, task_of, enqueue_link, enqueue_links, enqueue_result,
  yield_files, after_yield, process,
}

abbrev pub task_url : DiscoveryTask → Text
task_url task = task.url

-- The queue gets new tasks at its end, for URLs that are new and different, and these are seen.
abbrev pub Grows : (DiscoveryTask → Type 0) → Frontier → Frontier → Type 0
Grows P (seen, queue) (seen1, queue1) =
    (new : List DiscoveryTask) × (queue1 ≡ queue ++ new)
    × IsDistinct (map task_url new)
    × ((u : Text) → In u (map task_url new) → ¬ In u seen)
    × ((u : Text) → In u seen → In u seen1)
    × ((u : Text) → In u (map task_url new) → In u seen1)
    × All P new

module _ (P : DiscoveryTask → Type 0) where
  pub Grows-refl : (a : Frontier) → Grows P a a
  Grows-refl (seen, queue) = (
    [],
    sym (append-nil queue),
    ground arith,
    (λ u i. absurd i),
    (λ u i. i),
    (λ u i. absurd i),
    ground arith,
  )

  pub Grows-trans : (a b c : Frontier) → Grows P a b → Grows P b c → Grows P a c
  Grows-trans (s0, q0) (s1, q1) (s2, q2) (new, e, distinct, unseen, kept, known, holds)
        (new1, e1, distinct1, unseen1, kept1, known1, holds1) =
      (
        new ++ new1,
        e1 ∙ (ap (λ q. q ++ new1) e ∙ append_assoc q0 new new1),
        rw (map-append task_url new new1) (
            IsDistinct-append (map task_url new) (map task_url new1) distinct distinct1
              (λ u i j. unseen1 u j (known u i))),
        (λ u i.
            elim (In-append_cases u (map task_url new) (map task_url new1)
              (rw (map-append task_url new new1) at i)) [
                | inl l ↦ unseen u l
                | inr r ↦ λ s. unseen1 u r (kept u s)
              ]),
        (λ u i. kept1 u (kept u i)),
        (λ u i.
            elim (In-append_cases u (map task_url new) (map task_url new1)
              (rw (map-append task_url new new1) at i)) [
                | inl l ↦ kept1 u (known u l)
                | inr r ↦ known1 u r
              ]),
        All-append P new new1 holds holds1,
      )

  module _ (pattern : Option (Text → Bool)) (task : DiscoveryTask) (is_last_level : Bool)
      (fits : (link : ExtractedLink)
        → is_last_level && not (is_match pattern link.url) ≡ false
        → P (task_of task is_last_level link)) where
    enqueue_link-Grows :
        (link : ExtractedLink) (a : Frontier)
        → Grows P a (enqueue_link pattern task is_last_level link a)
    enqueue_link-Grows link (seen, queue) = elim (Bool-cases (is_among link.url seen)) [
      | inl e ↦ rw e (Grows-refl (seen, queue))
      | inr e ↦ elim (Bool-cases (is_last_level && not (is_match pattern link.url))) [
        | inl f ↦ rw (e, f) (Grows-refl (seen, queue))
        | inr f ↦
            let unseen : ¬ In link.url seen = ground (arith, e, is_among_iff link.url seen) in
            rw (e, f)
              (
                task_of task is_last_level link ∷ [],
                refl,
                ((λ i. i), ground arith),
                (λ u i. elim i [
                  | inl same ↦ λ s. unseen (subst (λ v. In v seen) same s)
                  | inr none_left ↦ absurd none_left
                ]),
                (λ u i. inr i),
                (λ u i. elim i [ inl same ↦ inl same | inr none_left ↦ absurd none_left ]),
                (fits link f, ground arith),
              )
      ]
    ]

    pub enqueue_links-Grows :
        (links : List ExtractedLink) (a : Frontier)
        → Grows P a (enqueue_links pattern task is_last_level links a)
    enqueue_links-Grows [] a = Grows-refl a
    enqueue_links-Grows (link ∷ links) a =
        let b = enqueue_link pattern task is_last_level link a in
        Grows-trans a b (enqueue_links pattern task is_last_level links b)
          (enqueue_link-Grows link a) (enqueue_links-Grows links b)

module _ (pattern : Option (Text → Bool)) (level : ℕ) where
  -- A task that `task` leads to: one level deeper, and on the last level for files alone.
  abbrev pub IsNext : DiscoveryTask → DiscoveryTask → Type 0
  IsNext task next =
      (next.level ≡ task.level + 1)
      × (task.level ≤ level)
      × (next.process_only_files ≡ (task.level == level))
      × ((task.level ≡ level) → is_match pattern next.url ≡ true)

  enqueue_result-Grows :
      (task : DiscoveryTask) (result : DiscoveryResult) (a : Frontier)
      → Grows (IsNext task) a (enqueue_result pattern level task result a)
  enqueue_result-Grows task result a = elim (Bool-cases (ltb task.level level)) [
    | inl e ↦
        let b = enqueue_links pattern task false result.directories a in
        let fits : (link : ExtractedLink)
            → false && not (is_match pattern link.url) ≡ false
            → IsNext task (task_of task false link) =
          λ link f. (refl, ground (arith, e), ground (arith, e), ground (arith, e)) in
        rw e (
          Grows-trans (IsNext task) a b (enqueue_links pattern task false result.unresolved_links b)
            (enqueue_links-Grows (IsNext task) pattern task false fits result.directories a)
            (enqueue_links-Grows (IsNext task) pattern task false fits result.unresolved_links b))
    | inr e ↦ elim (Bool-cases (task.level == level)) [
      | inl f ↦
          let fits : (link : ExtractedLink)
              → true && not (is_match pattern link.url) ≡ false
              → IsNext task (task_of task true link) =
            λ link g. (refl, ground (arith, f), ground (arith, f), ground (arith, g)) in
          rw (e, f)
            (enqueue_links-Grows (IsNext task) pattern task true fits result.unresolved_links a)
      | inr f ↦ rw (e, f) (Grows-refl (IsNext task) a)
    ]
  ]

  module _ (urls : UrlLibrary) (config : NavigableConfig) (library : MatchLibrary) (server : Server)
      (max_size_bytes : ℕ) where
    after_yield-Grows :
        (task : DiscoveryTask) (result : DiscoveryResult) (ends : Bool) (a : Frontier)
        → Grows
            (IsNext task)
            a
            (after_yield urls config library server max_size_bytes pattern level task result ends a)
    after_yield-Grows task result true a = enqueue_result-Grows task result a
    after_yield-Grows task result false a = Grows-refl (IsNext task) a

    pub process-Grows :
        (task : DiscoveryTask) (a : Frontier) (c : Crawl)
        → Grows
            (IsNext task)
            a
            (process urls config library server max_size_bytes pattern level task a c).frontier
    unfolding process
    process-Grows task a c =
        let (result, sent) =
          explore_resource urls config library server max_size_bytes task.url task.method_hint
            task.process_only_files c.sent in
        after_yield-Grows task result (yield_files pattern urls result.files).1 a
