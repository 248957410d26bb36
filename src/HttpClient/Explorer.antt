-- ===== src/HttpClient/Explorer.antt =====
-- http_client/resource_explorer.py: what one URL is found to be. The server is a parameter: its
-- answer to each call of the exploration, which may change from one call to the next.
use sdownload.Prelude.{
  ℕ, suc, ◌+◌, Bool, true, false, not, ◌&&◌, ◌||◌, ◌==◌, leb, Option, none, some, List, [], ◌∷◌,
  ◌++◌, length, if◌then◌else◌, ◌>>=◌,
}
use sdownload.Models.Text.{Text, codes}
use sdownload.Models.Text.Search.{lower, has_text, is_empty}
use sdownload.Urls.{UrlLibrary, NavigableConfig, get_url_extension, is_navigable}
use sdownload.HttpClient.Extractors.{
  DiscoveryMethod, get, propfind, post, unknown, is_method, discovery_method, ExtractedLink,
  MatchLibrary, get_extractor, extract, Extractor,
}

-- A response of httpx; `body` is what `aiter_text` yields, `none` where it raises.
pub record Response : Type 0 where
  pub url : Text
  pub request_method : Text
  pub status_code : ℕ
  pub headers : Text → Option Text
  pub body : List (Option Text)

pub record Request : Type 0 where
  pub method : Text
  pub url : Text
  pub headers : List (Text × Text)
  pub follow_redirects : Bool

-- What the n-th call of the client gives, `none` where the call raises. A call is one `Request`; with
-- `follow_redirects` its answer is the last of a chain, which the client requests by itself.
abbrev pub Server : Type 0
Server = ℕ → Request → Option Response

-- `headers.get(name, "")`
abbrev pub header_or_empty : Text → Response → Text
header_or_empty name resp = elim (resp.headers name) [ none ↦ [] | some value ↦ value ]

pub record DiscoveryResult : Type 0 where
  pub files : List Text
  pub directories : List ExtractedLink
  pub unresolved_links : List ExtractedLink

abbrev pub no_result : DiscoveryResult
no_result = record { files = []; directories = []; unresolved_links = [] }

abbrev pub only_file : Text → DiscoveryResult
only_file url = record { files = url ∷ []; directories = []; unresolved_links = [] }

abbrev pub method_to_string : DiscoveryMethod → Text
method_to_string propfind = codes "PROPFIND"
method_to_string post = codes "POST"
method_to_string _ = codes "GET"

abbrev pub build_headers : DiscoveryMethod → List (Text × Text)
build_headers propfind = (codes "Depth", codes "1") ∷ []
build_headers _ = []

abbrev pub is_false : Option Bool → Bool
is_false (some false) = true
is_false _ = false

-- The truth of a `bool | None`.
abbrev pub is_true : Option Bool → Bool
is_true (some true) = true
is_true _ = false

-- The loop of `_stream_body`, with what was read before: its text and its length.
unfoldable pub stream_body : ℕ → List (Option Text) → ℕ → Option (Text × ℕ)
stream_body max_scrape_size [] current_total = some ([], current_total)
stream_body max_scrape_size (none ∷ chunks) current_total = none
stream_body max_scrape_size (some chunk ∷ chunks) current_total =
    let rest = stream_body max_scrape_size chunks (current_total + length chunk) in
    if leb max_scrape_size (current_total + length chunk)
    then some (chunk, current_total + length chunk)
    else rest >>= (λ (body, total). some (chunk ++ body, total))

-- `"attachment" in ...`
abbrev pub is_attachment : Response → Bool
is_attachment resp =
    has_text (codes "attachment") (lower (header_or_empty (codes "Content-Disposition") resp))

-- The loop that classifies the links.
abbrev pub classify : ExtractedLink → DiscoveryResult → DiscoveryResult
classify link result = elim link.is_dir [
  | some false ↦ record result { files = link.url ∷ result.files }
  | some true ↦ record result { directories = link ∷ result.directories }
  | none ↦ record result { unresolved_links = link ∷ result.unresolved_links }
]

abbrev pub classify_all : List ExtractedLink → DiscoveryResult
classify_all [] = no_result
classify_all (link ∷ links) = classify link (classify_all links)

module _ (urls : UrlLibrary) (config : NavigableConfig) (library : MatchLibrary) where
  abbrev pub classify_process_only_files_response : Text → Response → Option DiscoveryResult
  classify_process_only_files_response url resp = get_url_extension urls url >>= (λ ext. some (
      if is_false (is_navigable config ext (header_or_empty (codes "Content-Type") resp))
      then only_file resp.url
      else no_result))

  abbrev pub is_directory : Response → Bool
  is_directory resp =
      is_true (is_navigable config [] (lower (header_or_empty (codes "Content-Type") resp)))
      || resp.status_code == 207

  -- The result of the links that the parser found.
  abbrev pub with_links : Response → List ExtractedLink → DiscoveryResult
  with_links resp links =
      let result = classify_all links in
      if is_directory resp then result else record result { files = resp.url ∷ result.files }

  abbrev pub extract_by : Text → Response → Option Extractor → Option DiscoveryResult
  extract_by body resp none = some (only_file resp.url)
  extract_by body resp (some parser) =
      if is_attachment resp
      then some (only_file resp.url)
      else extract urls config library parser body resp.url
        >>= (λ links. some (with_links resp links))

  unfoldable pub classify_and_extract : Text → Response → Option DiscoveryResult
  classify_and_extract body resp = discovery_method resp.request_method >>= (λ method.
      extract_by body resp
        (get_extractor (lower (header_or_empty (codes "Content-Type") resp)) method))

  -- The tests of the DAV upgrade.
  abbrev pub shows_dav : Text → Response → Bool
  shows_dav body resp =
      has_text (codes "xmlns:d=\"DAV:\"") body
      || has_text (codes "<d:multistatus") body
      || resp.status_code == 207

  -- The method of the second pass, if there is one.
  unfoldable pub retry_method : DiscoveryMethod → Text → Response → Option DiscoveryMethod
  retry_method get body resp = if shows_dav body resp then some propfind else none
  retry_method propfind body resp =
      if resp.status_code == 405 || resp.status_code == 501 then some get else none
  retry_method _ body resp = none

  abbrev pub caught : Option DiscoveryResult → DiscoveryResult
  caught none = no_result
  caught (some result) = result

  module _ (server : Server) (max_scrape_size : ℕ) (url : Text) where
    abbrev pub request_of : DiscoveryMethod → Request
    request_of method = record {
      method = method_to_string method;
      url = url;
      headers = build_headers method;
      follow_redirects = true;
    }

    -- The body is read from a second call for the same resource.
    abbrev pub second_body : DiscoveryMethod → ℕ → Option Text
    second_body method n =
        server n (request_of method)
        >>= (λ resp. stream_body max_scrape_size resp.body 0 >>= (λ (body, total). some body))

    -- The result of a pass over what it read, and the number of calls made.
    abbrev pub settled : ℕ → Option Text → Response → DiscoveryResult × ℕ
    settled n none resp = (no_result, n)
    settled n (some body) resp = (caught (classify_and_extract body resp), n)

    abbrev pub retry_with : DiscoveryMethod → ℕ → Option Response → DiscoveryResult × ℕ
    retry_with method n none = (no_result, suc n)
    retry_with method n (some resp) = settled (suc (suc n)) (second_body method (suc n)) resp

    -- `_explore_with_method` with `is_retry`.
    unfoldable pub explore_retry : DiscoveryMethod → ℕ → DiscoveryResult × ℕ
    explore_retry method n = retry_with method n (server n (request_of method))

    abbrev pub retried : Option DiscoveryMethod → ℕ → Text → Response → DiscoveryResult × ℕ
    retried none n body resp = (caught (classify_and_extract body resp), n)
    retried (some method) n body resp = explore_retry method n

    abbrev pub after_body : DiscoveryMethod → ℕ → Option Text → Response → DiscoveryResult × ℕ
    after_body method n none resp = (no_result, n)
    after_body method n (some body) resp = retried (retry_method method body resp) n body resp

    abbrev pub first_with : DiscoveryMethod → Bool → ℕ → Option Response → DiscoveryResult × ℕ
    first_with method process_only_files n none = (no_result, suc n)
    first_with method process_only_files n (some resp) =
        if process_only_files
        then (caught (classify_process_only_files_response url resp), suc n)
        else after_body method (suc (suc n)) (second_body method (suc n)) resp

    -- `_explore_with_method`; a request fails or is answered.
    unfoldable pub explore_with_method : DiscoveryMethod → Bool → ℕ → DiscoveryResult × ℕ
    explore_with_method method process_only_files n =
        first_with method process_only_files n (server n (request_of method))

    -- `dav_header or "PROPFIND" in allow_header and not process_only_files`
    abbrev pub offers_dav : Bool → Response → Bool
    offers_dav process_only_files resp =
        not (is_empty (header_or_empty (codes "DAV") resp))
        || (has_text (codes "PROPFIND") (header_or_empty (codes "Allow") resp)
            && not process_only_files)

    -- What follows the probe, when it decided nothing.
    abbrev pub unprobed : Bool → ℕ → DiscoveryResult × ℕ
    unprobed process_only_files n =
        let explored = explore_with_method get false n in
        if process_only_files then (no_result, n) else explored

    abbrev pub probed : Bool → ℕ → Option Response → DiscoveryResult × ℕ
    probed process_only_files n none = unprobed process_only_files n
    probed process_only_files n (some resp) =
        if offers_dav process_only_files resp
        then explore_with_method propfind false n
        else if is_true (is_navigable config [] (header_or_empty (codes "Content-Type") resp))
        then unprobed process_only_files n
        else (only_file url, n)

    abbrev pub options_request : Request
    options_request = record {
      method = codes "OPTIONS";
      url = url;
      headers = [];
      follow_redirects = true;
    }

    -- `explore_resource`, from the n-th call on.
    unfoldable pub explore_resource : DiscoveryMethod → Bool → ℕ → DiscoveryResult × ℕ
    explore_resource method_hint process_only_files n =
        if is_method method_hint unknown
        then probed process_only_files (suc n) (server n options_request)
        else explore_with_method method_hint process_only_files n
