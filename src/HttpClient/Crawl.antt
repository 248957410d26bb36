-- ===== src/HttpClient/Crawl.antt =====
-- http_client/httpx_downloader.py: `list_resources`, the crawl over a queue of discovery tasks. A
-- level below 1 stands as 0. The pattern is the search of its compiled form, if there is one.
pub mod Grows
pub mod Visits
pub mod Ends
pub mod Yields
use sdownload.Prelude.{
  ℕ, zero, suc, ◌+◌, Bool, true, false, not, ◌&&◌, ◌==◌, ltb, ◌≡◌, Option, none, some, List, [],
  ◌∷◌, ◌++◌, if◌then◌else◌, ◌>>=◌,
}
use sdownload.Models.Text.{Text}
use sdownload.Models.Text.Search.{is_among}
use sdownload.Exceptions.{Result, ok, err, value_error}
use sdownload.Urls.{UrlLibrary, NavigableConfig, url_to_file_name}
use sdownload.HttpClient.Extractors.{DiscoveryMethod, unknown, ExtractedLink, MatchLibrary}
use sdownload.HttpClient.Explorer.{Server, DiscoveryResult, explore_resource}

pub record DiscoveryTask : Type 0 where
  pub url : Text
  pub level : ℕ
  pub method_hint : DiscoveryMethod
  pub process_only_files : Bool

-- The seen URLs and the queue.
abbrev pub Frontier : Type 0
Frontier = List Text × List DiscoveryTask

-- The state of the loop: what was yielded, and how many calls of the client were made.
pub record Crawl : Type 0 where
  pub frontier : Frontier
  pub yielded : List Text
  pub sent : ℕ

-- `not regex or regex.search(text)`
abbrev pub is_match : Option (Text → Bool) → Text → Bool
is_match none text = true
is_match (some search) text = search text

-- The file name's length that `url_to_file_name` takes where none is given.
abbrev pub default_max_length : ℕ
default_max_length = 100

abbrev pub task_of : DiscoveryTask → Bool → ExtractedLink → DiscoveryTask
task_of task is_last_level link = record {
  url = link.url;
  level = task.level + 1;
  method_hint = link.method_hint;
  process_only_files = is_last_level;
}

module _ (pattern : Option (Text → Bool)) where
  abbrev pub enqueue_link : DiscoveryTask → Bool → ExtractedLink → Frontier → Frontier
  enqueue_link task is_last_level link (seen, queue) =
      if is_among link.url seen
      then (seen, queue)
      else if is_last_level && not (is_match pattern link.url)
      then (seen, queue)
      else (link.url ∷ seen, queue ++ task_of task is_last_level link ∷ [])

  -- `_enqueue_links`
  abbrev pub enqueue_links : DiscoveryTask → Bool → List ExtractedLink → Frontier → Frontier
  enqueue_links task is_last_level [] frontier = frontier
  enqueue_links task is_last_level (link ∷ links) frontier =
      enqueue_links task is_last_level links (enqueue_link task is_last_level link frontier)

  -- What the levels let into the queue.
  abbrev pub enqueue_result : ℕ → DiscoveryTask → DiscoveryResult → Frontier → Frontier
  enqueue_result level task result frontier =
      if ltb task.level level
      then enqueue_links task false result.unresolved_links
          (enqueue_links task false result.directories frontier)
      else if task.level == level
      then enqueue_links task true result.unresolved_links frontier
      else frontier

  -- The files that are yielded, and whether the loop came to its end: a URL that cannot be parsed
  -- raises.
  unfoldable pub yield_files : UrlLibrary → List Text → List Text × Bool
  yield_files urls [] = ([], true)
  yield_files urls (file_url ∷ files) =
      let (more, ends) = yield_files urls files in
      elim (url_to_file_name urls default_max_length file_url) [
        | none ↦ ([], false)
        | some name ↦ if is_match pattern name then (file_url ∷ more, ends) else (more, ends)
      ]

module _ (urls : UrlLibrary) (config : NavigableConfig) (library : MatchLibrary) (server : Server)
    (max_size_bytes : ℕ) (pattern : Option (Text → Bool)) (level : ℕ) where
  abbrev pub after_yield : DiscoveryTask → DiscoveryResult → Bool → Frontier → Frontier
  after_yield task result ends frontier =
      if ends then enqueue_result pattern level task result frontier else frontier

  abbrev pub after_exploring : DiscoveryTask → Frontier → List Text → DiscoveryResult × ℕ → Crawl
  after_exploring task frontier yielded (result, sent) = record {
    frontier = after_yield task result (yield_files pattern urls result.files).1 frontier;
    yielded = yielded ++ (yield_files pattern urls result.files).0;
    sent = sent;
  }

  -- One round of the loop, with the task that was taken from the queue and the rest of it.
  unfoldable pub process : DiscoveryTask → Frontier → Crawl → Crawl
  process task frontier c = after_exploring task frontier c.yielded (
      explore_resource urls config library server max_size_bytes task.url task.method_hint
        task.process_only_files c.sent)

  -- `while queue`, for at most `fuel` rounds.
  unfoldable pub crawl_from : ℕ → Frontier → Crawl → Option Crawl
  crawl_from zero frontier c = none
  crawl_from (suc fuel) (seen, []) c = some c
  crawl_from (suc fuel) (seen, task ∷ queue) c =
      let next = process task (seen, queue) c in crawl_from fuel next.frontier next

  abbrev pub first_task : Text → DiscoveryTask
  first_task url = record {
    url = url;
    level = 1;
    method_hint = unknown;
    process_only_files = false;
  }

  abbrev pub start : Text → Crawl
  start url = record { frontier = (url ∷ [], first_task url ∷ []); yielded = []; sent = 0 }

  -- The URLs that `list_resources` yields; `none` where the fuel runs out.
  unfoldable pub list_resources : ℕ → Text → Option (Result (List Text))
  unfolding crawl_from
  list_resources fuel url =
      if ltb level 1
      then some (err value_error)
      else crawl_from fuel (start url).frontier (start url) >>= (λ c. some (ok c.yielded))
