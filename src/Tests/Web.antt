-- ===== src/Tests/Web.antt =====
-- A small site: every answer is a page with a link to a file and one to a page.
use mathlib.Core.Option.{some-injective}
use sdownload.Prelude.{
  ℕ, ◌≡◌, ◌==◌, ◌≤◌, ◌+◌, refl, subst, Bool, true, false, Option, none, some, List, [], ◌∷◌, map,
  length, arith, if◌then◌else◌, IsDistinct, All, inl, inr,
}
use sdownload.Models.Text.{Text, codes, text_beq}
use sdownload.Models.Text.Search.{split_on, rstrip, has_text, has_code}
use sdownload.Exceptions.{ok}
use sdownload.Urls.{
  UrlLibrary, ParsedUrl, default_navigable, name_of, common_name, has_extension, path_extension,
  is_navigable, normalize_url,
}
use sdownload.Urls.FileNames.{url_to_file_name-IsFileName, is_dots}
use sdownload.HttpClient.Extractors.{
  get, unknown, text, ExtractedLink, MatchLibrary, extract, text_links, take_matches, get_extractor,
  discovery_method,
}
use sdownload.HttpClient.Extracted.{text_links-IsDistinct, text_links-raises}
use sdownload.HttpClient.Explorer.{
  DiscoveryResult, Server, Response, Request, header_or_empty, no_result, stream_body,
  explore_resource, explore_with_method, classify_and_extract, retry_method,
}
use sdownload.HttpClient.Explored.{
  stream_body-length, explore_resource-sent, explore_resource-files_only,
}
use sdownload.HttpClient.Crawl.{
  list_resources, start, crawl_from, process, yield_files, is_match, DiscoveryTask, Crawl,
}
use sdownload.HttpClient.Crawl.Visits.{Crawls, list_resources-visits}
use sdownload.HttpClient.Crawl.Ends.{list_resources_ends}
use sdownload.HttpClient.Crawl.Yields.{HasMatchingName, list_resources-match}

abbrev pub parsed_url : Text → ParsedUrl
parsed_url url = record {
  scheme = codes "http";
  netloc = codes "x";
  path = url;
  params = [];
  query = [];
  fragment = [];
}

abbrev pub urls : UrlLibrary
urls = record {
  urlparse = λ url. some (parsed_url url);
  urljoin = λ base_url link. some link;
  urlunparse = λ parsed. parsed.path;
  unescape = λ s. s;
}

-- Words stand for the matches.
abbrev library : MatchLibrary
library = record {
  attr_matches = λ content. split_on b' ' content;
  abs_url_matches = λ content. split_on b' ' content;
  dav_responses = λ content. none;
}

abbrev page : Response
page = record {
  url = codes "u";
  request_method = codes "GET";
  status_code = 200;
  headers = λ name. if text_beq name (codes "Content-Type") then some (codes "text/html") else none;
  body = some (codes "http:f.zip") ∷ some (codes " http:d") ∷ [];
}

abbrev server : Server
server n request = some page

list_resources_ends_example :
    (fuel : ℕ) × (yielded : List Text) × (list_resources urls default_navigable library server 100
        none 2 fuel
        (codes "u")
      ≡ some (ok yielded))
list_resources_ends_example =
    list_resources_ends urls default_navigable library server 100 none 2 (codes "u") (omega arith)

explore_resource-sent_example :
    (explore_resource urls default_navigable library server 100 (codes "u") unknown false 3).1
    ≤ 3 + 5
explore_resource-sent_example =
    explore_resource-sent urls default_navigable library server 100 (codes "u") unknown false 3

no_dav :
    (k : ℕ) (request : Request) (r : Response)
    → server k request ≡ some r
    → header_or_empty (codes "DAV") r ≡ []
no_dav k request r e =
    subst (λ x. header_or_empty (codes "DAV") x ≡ []) (some-injective page r e) refl

abbrev nothing : DiscoveryResult
nothing = no_result

explore_resource-files_only_example :
    (nothing.directories ≡ []) × (nothing.unresolved_links ≡ []) × (length nothing.files ≤ 1)
unfolding explore_resource is_navigable
explore_resource-files_only_example =
    explore_resource-files_only urls default_navigable library server 100 (codes "u") unknown 0
      nothing 1 no_dav refl

stream_body-length_example : (5 ≡ length (codes "abcde")) × (5 ≤ 4 + 3)
unfolding stream_body
stream_body-length_example =
    stream_body-length 4 3 (some (codes "ab") ∷ some (codes "cde") ∷ some (codes "f") ∷ [])
      (codes "abcde") 5 (omega arith, (omega arith, (omega arith, ground arith))) refl

url_to_file_name-IsFileName_example :
    (has_code b'/' (codes "f.zip") ≡ false) × (is_dots (codes "f.zip") ≡ false)
unfolding name_of common_name has_extension
url_to_file_name-IsFileName_example =
    url_to_file_name-IsFileName urls 100 (codes "/a/f.zip") (codes "f.zip") refl

abbrev json_link : ExtractedLink
json_link = record { url = codes "http:a"; is_dir = none; method_hint = unknown }

abbrev page_link : ExtractedLink
page_link = record { url = codes "http:d/"; is_dir = none; method_hint = get }

text_links-IsDistinct_example :
    IsDistinct (map (λ link. rstrip b'/' link.url) (page_link ∷ []))
    × All (λ link. has_text (codes "http") link.url ≡ true) (page_link ∷ [])
unfolding extract text_links take_matches normalize_url path_extension is_navigable
text_links-IsDistinct_example =
    text_links-IsDistinct urls default_navigable library (codes "http:d/ http:d") (codes "u")
      (page_link ∷ []) refl

text_links-raises_example :
    extract urls default_navigable library text (codes "a  b") (codes "u") ≡ none
text_links-raises_example =
    text_links-raises urls default_navigable library (codes "a  b") (codes "u") (inr (inl refl))

abbrev pattern : Option (Text → Bool)
pattern = some (λ name. has_code b'z' name)

abbrev found : List Text
found = codes "http:f.zip" ∷ []

list_resources-match_example : All (HasMatchingName urls pattern) found
unfolding list_resources crawl_from process yield_files explore_resource explore_with_method
    classify_and_extract retry_method stream_body get_extractor discovery_method extract text_links
    take_matches normalize_url path_extension is_navigable name_of common_name has_extension
list_resources-match_example =
    list_resources-match urls default_navigable library server 100 pattern 1 4 (codes "u") found
      refl

list_resources-visits_example :
    (tasks : List DiscoveryTask) × (final : Crawl) × Crawls urls default_navigable library server
      100 pattern 1
      (start urls default_navigable library server 100 pattern 1 (codes "u"))
      tasks
      final
    × (final.frontier.1 ≡ [])
    × (final.yielded ≡ found)
    × IsDistinct (map (λ task. task.url) tasks)
    × All
        (λ task.
          (task.level ≤ 1 + 1)
          × (task.process_only_files ≡ (task.level == 1 + 1))
          × ((task.level ≡ 1 + 1) → is_match pattern task.url ≡ true))
        tasks
unfolding list_resources crawl_from process yield_files explore_resource explore_with_method
    classify_and_extract retry_method stream_body get_extractor discovery_method extract text_links
    take_matches normalize_url path_extension is_navigable name_of common_name has_extension
list_resources-visits_example =
    list_resources-visits urls default_navigable library server 100 pattern 1 4 (codes "u") found
      refl
