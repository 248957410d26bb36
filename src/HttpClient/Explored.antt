-- ===== src/HttpClient/Explored.antt =====
-- The exploration of one URL: how many requests it sends, how much it reads, and what it confirms.
use sdownload.Prelude.{
  refl, ℕ, suc, ◌+◌, ◌≤◌, Bool, true, false, leb, ◌≡◌, subst, length-append, Option-cases, Option,
  none, some, List, [], ◌∷◌, length, arith, Bool-cases, inl, inr,
}
use mathlib.Core.Option.{some-injective}
use sdownload.Models.Text.{Text, codes}
use sdownload.Urls.{UrlLibrary, NavigableConfig, get_url_extension, is_navigable}
use sdownload.HttpClient.Extractors.{
  DiscoveryMethod, get, propfind, unknown, is_method, MatchLibrary,
}
use sdownload.HttpClient.Explorer.{
  Server, is_true, Request, Response, DiscoveryResult, stream_body,
  classify_process_only_files_response, caught, offers_dav, is_false, header_or_empty,
  explore_resource, explore_with_method, explore_retry, second_body, after_body, first_with,
  retry_with, settled, probed, unprobed, request_of, retry_method, options_request,
}

-- The chunks of a response that raised nothing have at most `size` characters.
abbrev pub AreWithin : ℕ → List (Option Text) → Type 0
AreWithin size [] = Unit
AreWithin size (none ∷ chunks) = AreWithin size chunks
AreWithin size (some chunk ∷ chunks) = (length chunk ≤ size) × AreWithin size chunks

-- The text and the length that were read, from `t` characters on.
abbrev IsRead : ℕ → ℕ → ℕ → Text × ℕ → Type 0
IsRead max_scrape_size size t (body, total) =
    (total ≡ t + length body) × (total ≤ max_scrape_size + size)

stream_body-IsRead :
    (max_scrape_size size t : ℕ) (chunks : List (Option Text)) (read : Text × ℕ)
    → AreWithin size chunks
    → t ≤ max_scrape_size
    → stream_body max_scrape_size chunks t ≡ some read
    → IsRead max_scrape_size size t read
unfolding stream_body
stream_body-IsRead max_scrape_size size t [] read w h e =
    subst (IsRead max_scrape_size size t) (some-injective _ _ e) (omega arith, omega arith)
stream_body-IsRead max_scrape_size size t (none ∷ chunks) read w h e = absurd cc
stream_body-IsRead max_scrape_size size t (some chunk ∷ chunks) read (w, ws) h e =
    let next = t + length chunk in
    elim (Bool-cases (leb max_scrape_size next)) [
      | inl b ↦
          subst (IsRead max_scrape_size size t) (some-injective _ _ (rw b at e)) (refl, omega arith)
      | inr b ↦ elim (Option-cases (stream_body max_scrape_size chunks next)) [
        | inl s ↦ absurd (let bad = rw (b, s) at e in cc)
        | inr ((rest, sum), s) ↦
            let within : next ≤ max_scrape_size = ground (arith, b) in
            let (same, bound) =
              stream_body-IsRead max_scrape_size size next chunks (rest, sum) ws within s in
            subst (IsRead max_scrape_size size t) (some-injective _ _ (rw (b, s) at e))
              (omega (arith, same, length-append chunk rest), bound)
      ]
    ]

-- A body that is scraped has the counted length, and is longer than the limit by one chunk at most.
pub stream_body-length :
    (max_scrape_size size : ℕ) (chunks : List (Option Text)) (body : Text) (total : ℕ)
    → AreWithin size chunks
    → stream_body max_scrape_size chunks 0 ≡ some (body, total)
    → (total ≡ length body) × (total ≤ max_scrape_size + size)
stream_body-length max_scrape_size size chunks body total w e =
    let (same, bound) =
      stream_body-IsRead max_scrape_size size 0 chunks (body, total) w (omega arith) e in
    (omega (arith, same), bound)

module _ (urls : UrlLibrary) (config : NavigableConfig) (library : MatchLibrary) (server : Server)
    (max_scrape_size : ℕ) (url : Text) where
  settled-sent :
      (n : ℕ) (body : Option Text) (resp : Response)
      → (settled urls config library server max_scrape_size url n body resp).1 ≡ n
  settled-sent n none resp = refl
  settled-sent n (some body) resp = refl

  retry_with-sent :
      (method : DiscoveryMethod) (n : ℕ) (resp : Option Response)
      → (retry_with urls config library server max_scrape_size url method n resp).1 ≤ n + 2
  retry_with-sent method n none = omega arith
  retry_with-sent method n (some resp) =
      let body = second_body urls config library server max_scrape_size url method (suc n) in
      rw (settled-sent (suc (suc n)) body resp) (omega arith)

  explore_retry-sent :
      (method : DiscoveryMethod) (n : ℕ)
      → (explore_retry urls config library server max_scrape_size url method n).1 ≤ n + 2
  unfolding explore_retry
  explore_retry-sent method n =
      retry_with-sent method n
        (server n (request_of urls config library server max_scrape_size url method))

  after_body-sent :
      (method : DiscoveryMethod) (n : ℕ) (body : Option Text) (resp : Response)
      → (after_body urls config library server max_scrape_size url method n body resp).1 ≤ n + 2
  after_body-sent method n none resp = omega arith
  after_body-sent method n (some body) resp =
      elim (Option-cases (retry_method urls config library method body resp)) [
        | inl e ↦ rw e (omega arith)
        | inr (again, e) ↦ rw e (explore_retry-sent again n)
      ]

  first_with-sent :
      (method : DiscoveryMethod) (process_only_files : Bool) (n : ℕ) (resp : Option Response)
      → (first_with urls config library server max_scrape_size url method process_only_files n
          resp).1
        ≤ n + 4
  first_with-sent method process_only_files n none = omega arith
  first_with-sent method true n (some resp) = omega arith
  first_with-sent method false n (some resp) =
      let body = second_body urls config library server max_scrape_size url method (suc n) in
      omega (arith, after_body-sent method (suc (suc n)) body resp)

  explore_with_method-sent :
      (method : DiscoveryMethod) (process_only_files : Bool) (n : ℕ)
      → (explore_with_method urls config library server max_scrape_size url method
          process_only_files n).1
        ≤ n + 4
  unfolding explore_with_method
  explore_with_method-sent method process_only_files n =
      first_with-sent method process_only_files n
        (server n (request_of urls config library server max_scrape_size url method))

  unprobed-sent :
      (process_only_files : Bool) (n : ℕ)
      → (unprobed urls config library server max_scrape_size url process_only_files n).1 ≤ n + 4
  unprobed-sent true n = omega arith
  unprobed-sent false n = explore_with_method-sent get false n

  probed-sent :
      (process_only_files : Bool) (n : ℕ) (resp : Option Response)
      → (probed urls config library server max_scrape_size url process_only_files n resp).1 ≤ n + 4
  probed-sent process_only_files n none = unprobed-sent process_only_files n
  probed-sent process_only_files n (some resp) =
      ground (arith, unprobed-sent process_only_files n, explore_with_method-sent propfind false n)

  -- However the HTTP client answers, exploring a URL calls it at most five times, where one call follows
  -- all redirects of its request.
  pub explore_resource-sent :
      (method_hint : DiscoveryMethod) (process_only_files : Bool) (n : ℕ)
      → (explore_resource urls config library server max_scrape_size url method_hint
          process_only_files n).1
        ≤ n + 5
  unfolding explore_resource
  explore_resource-sent method_hint process_only_files n =
      let probe = server n (options_request urls config library server max_scrape_size url) in
      ground (
        arith,
        probed-sent process_only_files (suc n) probe,
        explore_with_method-sent method_hint process_only_files n,
      )

  -- What an exploration for files alone may give: no directory, no link to probe.
  abbrev IsFiles : DiscoveryResult × ℕ → Type 0
  IsFiles (result, n) =
      (result.directories ≡ []) × (result.unresolved_links ≡ []) × (length result.files ≤ 1)

  checked-IsFiles :
      (resp : Response) (n : ℕ)
      → IsFiles (
        caught urls config library
            (classify_process_only_files_response urls config library url resp),
        n,
      )
  checked-IsFiles resp n = elim (Option-cases (get_url_extension urls url)) [
    | inl e ↦ rw e (refl, refl, omega arith)
    | inr (ext, e) ↦
        let found = is_navigable config ext (header_or_empty (codes "Content-Type") resp) in
        elim (Bool-cases (is_false found)) [
          | inl f ↦ rw (e, f) (refl, refl, omega arith)
          | inr f ↦ rw (e, f) (refl, refl, omega arith)
        ]
  ]

  first_with-IsFiles :
      (method : DiscoveryMethod) (n : ℕ) (resp : Option Response)
      → IsFiles (first_with urls config library server max_scrape_size url method true n resp)
  first_with-IsFiles method n none = (refl, refl, omega arith)
  first_with-IsFiles method n (some resp) = checked-IsFiles resp (suc n)

  probed-IsFiles :
      (n : ℕ) (resp : Option Response)
      → ((r : Response) → resp ≡ some r → header_or_empty (codes "DAV") r ≡ [])
      → IsFiles (probed urls config library server max_scrape_size url true n resp)
  probed-IsFiles n none plain = (refl, refl, omega arith)
  probed-IsFiles n (some resp) plain =
      let content_type = header_or_empty (codes "Content-Type") resp in
      let no_dav : offers_dav urls config library server max_scrape_size url true resp ≡ false =
        rw (plain resp refl) (ground arith) in
      elim (Bool-cases (is_true (is_navigable config [] content_type))) [
        | inl f ↦ rw (no_dav, f) (refl, refl, omega arith)
        | inr f ↦ rw (no_dav, f) (refl, refl, omega arith)
      ]

  -- Exploring for files alone a server without DAV headers gives one file at most, and nothing that
  -- is to be explored further.
  pub explore_resource-files_only :
      (method_hint : DiscoveryMethod) (n : ℕ) (result : DiscoveryResult) (sent : ℕ)
      → ((k : ℕ) (request : Request) (r : Response)
          → server k request ≡ some r
          → header_or_empty (codes "DAV") r ≡ [])
      → explore_resource urls config library server max_scrape_size url method_hint true n
        ≡ (result, sent)
      → (result.directories ≡ []) × (result.unresolved_links ≡ []) × (length result.files ≤ 1)
  unfolding explore_resource explore_with_method
  explore_resource-files_only method_hint n result sent plain e =
      let probe = options_request urls config library server max_scrape_size url in
      let request = request_of urls config library server max_scrape_size url method_hint in
      subst IsFiles e (elim (Bool-cases (is_method method_hint unknown)) [
        | inl m ↦ rw m (probed-IsFiles (suc n) (server n probe) (λ r h. plain n probe r h))
        | inr m ↦ rw m (first_with-IsFiles method_hint n (server n request))
      ])
