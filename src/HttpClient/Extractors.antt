-- ===== src/HttpClient/Extractors.antt =====
-- http_client/extractors/: which extractor reads a response, and what each makes of the matches that
-- Python's regular expressions and XML parser find. `none` is an exception.
use sdownload.Prelude.{
  Bool, true, false, not, ◌||◌, Option, none, some, List, [], ◌∷◌, ◌++◌, if◌then◌else◌, ◌>>=◌,
}
use sdownload.Models.Text.{Text, codes, text_beq}
use sdownload.Models.Text.Search.{
  lower, has_text, has_any, is_among, is_empty, rstrip, strip_spaces,
}
use sdownload.Urls.{UrlLibrary, NavigableConfig, normalize_url, get_url_extension, is_navigable}

-- `DiscoveryMethod`
pub data DiscoveryMethod : Type 0 where
  get propfind post unknown other : DiscoveryMethod

-- `==` on the members
abbrev pub is_method : DiscoveryMethod → DiscoveryMethod → Bool
is_method get get = true
is_method propfind propfind = true
is_method post post = true
is_method unknown unknown = true
is_method other other = true
is_method _ _ = false

-- `DiscoveryMethod(name)`, which raises on any other name.
unfoldable pub discovery_method : Text → Option DiscoveryMethod
discovery_method name =
    if text_beq name (codes "GET")
    then some get
    else if text_beq name (codes "PROPFIND")
    then some propfind
    else if text_beq name (codes "POST")
    then some post
    else if text_beq name (codes "UNKNOWN")
    then some unknown
    else if text_beq name (codes "OTHER")
    then some other
    else none

pub record ExtractedLink : Type 0 where
  pub url : Text
  pub is_dir : Option Bool
  pub method_hint : DiscoveryMethod

-- The elements of a `d:response` that are read: the text of its `d:href`, and its `d:prop` with the
-- `d:resourcetype` in it, which has a `d:collection` or not.
pub record ResourceType : Type 0 where
  pub has_collection : Bool

pub record DavProp : Type 0 where
  pub resourcetype : Option ResourceType

pub record DavResponse : Type 0 where
  pub href : Option Text
  pub prop : Option DavProp

-- Python's library, as the extractors call it: what the second group of each match of `_ATTR_REGEX`
-- and of `_ABS_URL_REGEX` is, and the responses of a multistatus document.
pub record MatchLibrary : Type 0 where
  pub attr_matches : Text → List Text
  pub abs_url_matches : Text → List Text
  pub dav_responses : Text → Option (List DavResponse)

pub data Extractor : Type 0 where
  webdav json text : Extractor

-- `ExtractorFactory.get_extractor`
unfoldable pub get_extractor : Text → DiscoveryMethod → Option Extractor
get_extractor content_type method =
    if is_method method propfind
    then some webdav
    else if has_text (codes "application/json") (lower content_type)
    then some json
    else if has_any (codes "text/" ∷ codes "xml" ∷ codes "javascript" ∷ codes "html" ∷ [])
        (lower content_type)
    then some text
    else if is_empty (lower content_type)
    then some text
    else none

-- `JsonExtractor.extract` over its matches, with the links that were seen.
abbrev pub json_links : List Text → List Text → List ExtractedLink
json_links seen [] = []
json_links seen (found ∷ matches) =
    let raw_link = strip_spaces found in
    let skipped = json_links seen matches in
    let kept = json_links (raw_link ∷ seen) matches in
    if is_among raw_link seen
    then skipped
    else record { url = raw_link; is_dir = none; method_hint = unknown } ∷ kept

module _ (urls : UrlLibrary) (config : NavigableConfig) where
  abbrev pub hint_of : Bool → Option Bool → DiscoveryMethod
  hint_of true is_dir = get
  hint_of false (some false) = get
  hint_of false _ = unknown

  -- The link that `TextPatternExtractor.extract` makes of a URL.
  abbrev pub text_link : Bool → Text → Option ExtractedLink
  text_link from_native_html url = get_url_extension urls url >>= (λ ext. some (record {
    url = url;
    is_dir = is_navigable config ext [];
    method_hint = hint_of from_native_html (is_navigable config ext []);
  }))

  abbrev pub is_skipped : Text → List Text → Bool
  is_skipped url seen =
      is_empty url || is_among (rstrip b'/' url) seen || not (has_text (codes "http") url)

  -- What one match does to the seen and the final links: `url.rstrip` raises where
  -- `normalize_url` gave `None`.
  abbrev pub take_url :
      Bool → List Text × List ExtractedLink → Option Text → Option (List Text × List ExtractedLink)
  take_url from_native_html (seen, links) none = none
  take_url from_native_html (seen, links) (some url) =
      if is_skipped url seen
      then some (seen, links)
      else text_link from_native_html url
        >>= (λ link. some (rstrip b'/' url ∷ seen, links ++ link ∷ []))

  -- The loop over the matches of one pattern.
  unfoldable pub take_matches :
      Bool
      → Text
      → List Text
      → List Text × List ExtractedLink
      → Option (List Text × List ExtractedLink)
  take_matches from_native_html base_url [] st = some st
  take_matches from_native_html base_url (raw_link ∷ matches) st =
      normalize_url urls raw_link base_url >>= (λ url.
        take_url from_native_html st url
        >>= (λ next. take_matches from_native_html base_url matches next))

  -- `TextPatternExtractor.extract`
  unfoldable pub text_links : MatchLibrary → Text → Text → Option (List ExtractedLink)
  unfolding take_matches
  text_links library content base_url =
      take_matches true base_url (library.attr_matches content) ([], []) >>= (λ st.
        take_matches false base_url (library.abs_url_matches content) st
        >>= (λ final. some final.1))

abbrev pub is_collection : Option DavProp → Bool
is_collection none = false
is_collection (some prop) = elim prop.resourcetype [
  | none ↦ false
  | some resourcetype ↦ resourcetype.has_collection
]

module _ (urls : UrlLibrary) where
  -- `urlparse(url).path.rstrip("/")`
  abbrev pub path_of : Text → Option Text
  path_of url = urls.urlparse url >>= (λ parsed. some (rstrip b'/' parsed.path))

  -- The link of one response, unless it is the requested resource itself.
  abbrev pub dav_link : Text → Text → Option DavProp → Text → Option (List ExtractedLink)
  dav_link base_url requested_path prop href = urls.urljoin base_url href >>= (λ absolute_url.
      path_of absolute_url >>= (λ path. some (
        if text_beq path requested_path
        then []
        else record {
          url = absolute_url;
          is_dir = some (is_collection prop);
          method_hint = propfind;
        }
          ∷ [])))

  abbrev pub dav_response_links : Text → Text → DavResponse → Option (List ExtractedLink)
  dav_response_links base_url requested_path resp = elim resp.href [
    | none ↦ some []
    | some href ↦ dav_link base_url requested_path resp.prop href
  ]

  unfoldable pub dav_links : Text → Text → List DavResponse → Option (List ExtractedLink)
  dav_links base_url requested_path [] = some []
  dav_links base_url requested_path (resp ∷ responses) =
      dav_response_links base_url requested_path resp
      >>= (λ links. dav_links base_url requested_path responses >>= (λ more. some (links ++ more)))

  abbrev pub parsed_dav_links : Text → Option (List DavResponse) → Option (List ExtractedLink)
  unfolding dav_links
  parsed_dav_links base_url none = some []
  parsed_dav_links base_url (some responses) =
      path_of base_url >>= (λ requested_path. dav_links base_url requested_path responses)

  -- `WebDavExtractor.extract`
  abbrev pub webdav_links : MatchLibrary → Text → Text → Option (List ExtractedLink)
  webdav_links library content base_url =
      if is_empty (strip_spaces content)
      then some []
      else parsed_dav_links base_url (library.dav_responses content)

-- `parser.extract(content, base_url)`
unfoldable pub extract :
    UrlLibrary
    → NavigableConfig
    → MatchLibrary
    → Extractor
    → Text
    → Text
    → Option (List ExtractedLink)
extract urls config library webdav content base_url = webdav_links urls library content base_url
extract urls config library json content base_url =
    some (json_links [] (library.abs_url_matches content))
extract urls config library text content base_url = text_links urls config library content base_url
