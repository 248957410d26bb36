-- ===== src/HttpClient/Crawl/Yields.antt =====
-- What the crawl yields.
use mathlib.Core.Option.{some-injective}
use sdownload.Prelude.{
  subst, Option-cases, Bool-cases, inl, inr, ℕ, zero, suc, Bool, true, ◌≡◌, Option, some, List, [],
  ◌∷◌, arith, All, All-append, ltb,
}
use sdownload.Models.Text.{Text}
use sdownload.Exceptions.{ok}
use sdownload.Urls.{UrlLibrary, NavigableConfig, url_to_file_name}
use sdownload.HttpClient.Extractors.{MatchLibrary}
use sdownload.HttpClient.Explorer.{Server, explore_resource}
use sdownload.HttpClient.Crawl.{
  DiscoveryTask, Frontier, Crawl, process, crawl_from, start, list_resources, yield_files, is_match,
  default_max_length,
}

-- The file name of the URL matches the pattern.
abbrev pub HasMatchingName : UrlLibrary → Option (Text → Bool) → Text → Type 0
HasMatchingName urls pattern file_url =
    (name : Text) × (url_to_file_name urls default_max_length file_url ≡ some name)
    × (is_match pattern name ≡ true)

yield_files-match :
    (pattern : Option (Text → Bool)) (urls : UrlLibrary) (files : List Text)
    → All (HasMatchingName urls pattern) (yield_files pattern urls files).0
unfolding yield_files
yield_files-match pattern urls [] = ground arith
yield_files-match pattern urls (file_url ∷ files) =
    let more = yield_files-match pattern urls files in
    elim (Option-cases (url_to_file_name urls default_max_length file_url)) [
      | inl e ↦ rw (yield_files, e) (ground arith)
      | inr (name, e) ↦ elim (Bool-cases (is_match pattern name)) [
        | inl f ↦ rw (yield_files, e, f) ((name, e, f), more)
        | inr f ↦ rw (yield_files, e, f) more
      ]
    ]

module _ (urls : UrlLibrary) (config : NavigableConfig) (library : MatchLibrary) (server : Server)
    (max_size_bytes : ℕ) (pattern : Option (Text → Bool)) (level : ℕ) where
  process-match :
      (task : DiscoveryTask) (a : Frontier) (c : Crawl)
      → All (HasMatchingName urls pattern) c.yielded
      → All
          (HasMatchingName urls pattern)
          (process urls config library server max_size_bytes pattern level task a c).yielded
  unfolding process
  process-match task a c h =
      let (result, sent) =
        explore_resource urls config library server max_size_bytes task.url task.method_hint
          task.process_only_files c.sent in
      All-append (HasMatchingName urls pattern) c.yielded (yield_files pattern urls result.files).0
        h (yield_files-match pattern urls result.files)

  crawl_from-match :
      (fuel : ℕ) (a : Frontier) (c final : Crawl)
      → All (HasMatchingName urls pattern) c.yielded
      → crawl_from urls config library server max_size_bytes pattern level fuel a c ≡ some final
      → All (HasMatchingName urls pattern) final.yielded
  unfolding crawl_from
  crawl_from-match zero a c final h e = absurd cc
  crawl_from-match (suc fuel) (seen, []) c final h e =
      subst (λ f. All (HasMatchingName urls pattern) f.yielded) (some-injective _ _ e) h
  crawl_from-match (suc fuel) (seen, task ∷ queue) c final h e =
      let next =
        process urls config library server max_size_bytes pattern level task (seen, queue) c in
      crawl_from-match fuel next.frontier next final (process-match task (seen, queue) c h) e

  -- Every URL that the crawl yields has a file name that matches the pattern.
  pub list_resources-match :
      (fuel : ℕ) (url : Text) (yielded : List Text)
      → list_resources urls config library server max_size_bytes pattern level fuel url
        ≡ some (ok yielded)
      → All (HasMatchingName urls pattern) yielded
  unfolding list_resources
  list_resources-match fuel url yielded e =
      let c = start urls config library server max_size_bytes pattern level url in
      elim (Bool-cases (ltb level 1)) [
        | inl low ↦ absurd (let bad = rw low at e in cc)
        | inr low ↦
            elim (Option-cases (
              crawl_from urls config library server max_size_bytes pattern level fuel c.frontier
                c)) [
                  | inl s ↦ absurd (let bad = rw (low, s) at e in cc)
                  | inr (final, s) ↦
                      subst (All (HasMatchingName urls pattern)) (let ends = rw (low, s) at e in cc)
                        (crawl_from-match fuel c.frontier c final (ground arith) s)
                ]
      ]
