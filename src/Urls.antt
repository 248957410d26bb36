-- ===== src/Urls.antt =====
-- utils/url_operations.py, get_url_extension.py, is_navigable.py and navigable_config.py. The parsing
-- of URLs and HTML entities is the standard library's, a record of functions here; a function that
-- raises gives `none`.
pub mod FileNames
pub mod Navigable
use sdownload.Prelude.{
  ℕ, zero, suc, ◌+◌, ◌-◌, ◌≡◌, refl, Bool, true, false, not, ◌&&◌, ◌||◌, Option, none, some, List,
  [], ◌∷◌, ◌++◌, map, ltb, leb, ◌==◌, if◌then◌else◌, reverse, length, drop, ◌>>=◌,
}
use sdownload.Models.Text.{Text, codes}
use sdownload.Models.Text.Search.{
  lower, is_alnum, has_code, has_any, is_among, is_empty, rstrip, strip, strip_spaces, split_on,
  last_part, last_codes, ends_with_code,
}

-- The parts of `urlparse(url)` that are read or replaced.
pub record ParsedUrl : Type 0 where
  pub scheme : Text
  pub netloc : Text
  pub path : Text
  pub params : Text
  pub query : Text
  pub fragment : Text

-- `urllib.parse` and `html`
pub record UrlLibrary : Type 0 where
  pub urlparse : Text → Option ParsedUrl
  pub urljoin : Text → Text → Option Text
  pub urlunparse : ParsedUrl → Text
  pub unescape : Text → Text

-- `re.sub(r"[^a-zA-Z0-9]+", "_", s)`; the flag tells that the last code was part of a run.
unfoldable pub replace_runs : Bool → Text → Text
replace_runs in_run [] = []
replace_runs in_run (c ∷ s) =
    let kept = replace_runs false s in
    let skipped = replace_runs true s in
    if is_alnum c then c ∷ kept else if in_run then skipped else b'_' ∷ skipped

unfoldable pub safe_slugify : Text → Text
unfolding replace_runs
safe_slugify s = strip b'_' (replace_runs false s)

-- What the pattern reads from the end of the text on: letters and digits, then a dot.
abbrev pub ends_extension : Bool → Text → Bool
ends_extension some_read [] = false
ends_extension some_read (c ∷ s) =
    let rest = ends_extension true s in if is_alnum c then rest else some_read && c == b'.'

abbrev pub drop_newline : Text → Text
drop_newline [] = []
drop_newline (c ∷ s) = if c == 10 then s else c ∷ s

-- `re.search(r"\.[a-zA-Z0-9]+$", name)`, whose `$` also stands before a last newline.
unfoldable pub has_extension : Text → Bool
has_extension name = ends_extension false (drop_newline (reverse name))

unfoldable pub relevant_part : ParsedUrl → Text
relevant_part parsed =
    if is_empty parsed.query then parsed.path else parsed.path ++ b'_' ∷ parsed.query

unfoldable pub slug_of : ParsedUrl → Text
unfolding safe_slugify relevant_part
slug_of parsed =
    let slug = safe_slugify (relevant_part parsed) in
    if is_empty slug then safe_slugify parsed.netloc else slug

unfoldable pub common_name : ParsedUrl → Text
common_name parsed = last_part (split_on b'/' (rstrip b'/' parsed.path))

unfoldable pub name_of : ℕ → ParsedUrl → Text
unfolding common_name has_extension slug_of
name_of max_length parsed =
    if not (is_empty (common_name parsed)) && has_extension (common_name parsed)
    then common_name parsed
    else last_codes max_length (slug_of parsed) ++ codes ".bin"

abbrev pub url_to_file_name : UrlLibrary → ℕ → Text → Option Text
url_to_file_name library max_length url =
    library.urlparse url >>= (λ parsed. some (name_of max_length parsed))

-- The text without its fragment, absolute.
abbrev pub absolute_url : UrlLibrary → Text → Text → Option Text
absolute_url library link base_url = library.urljoin base_url link >>= (λ absolute.
    library.urlparse absolute
    >>= (λ parsed. some (library.urlunparse (record parsed { fragment = [] }))))

-- `normalize_url`: the outer `none` is an exception, the inner one the result `None`.
unfoldable pub normalize_url : UrlLibrary → Text → Text → Option (Option Text)
normalize_url library raw_link base_url =
    let link = library.unescape (strip_spaces raw_link) in
    if is_empty raw_link
    then some none
    else if is_empty link
    then some none
    else absolute_url library link base_url >>= (λ absolute. some (some absolute))

abbrev pub extension_of : Text → Text
extension_of part = if has_code b'.' part then lower (last_part (split_on b'.' part)) else []

unfoldable pub path_extension : Text → Text
path_extension path =
    if is_empty path || ends_with_code b'/' path
    then []
    else extension_of (last_part (split_on b'/' path))

abbrev pub get_url_extension : UrlLibrary → Text → Option Text
unfolding path_extension
get_url_extension library url =
    library.urlparse url >>= (λ parsed. some (path_extension parsed.path))

-- `navigable_extensions` and `navigable_content_types`, the sets that `add` changes.
pub record NavigableConfig : Type 0 where
  pub extensions : List Text
  pub patterns : List Text

abbrev pub default_extensions : List Text
default_extensions =
    codes "html"
    ∷ codes "htm"
    ∷ codes "php"
    ∷ codes "json"
    ∷ codes "xml"
    ∷ codes "asp"
    ∷ codes "jsp"
    ∷ codes "aspx"
    ∷ codes "cgi"
    ∷ codes "js"
    ∷ codes "css"
    ∷ []

abbrev pub default_patterns : List Text
default_patterns = codes "html" ∷ codes "json" ∷ codes "xml" ∷ []

abbrev pub default_navigable : NavigableConfig
default_navigable = record { extensions = default_extensions; patterns = default_patterns }

-- `NavigableExtensions._normalize`
abbrev pub normalize_extension : Text → Text
normalize_extension ext = strip b'.' (lower ext)

abbrev pub add_extension : Text → NavigableConfig → NavigableConfig
add_extension ext self = record self { extensions = normalize_extension ext ∷ self.extensions }

abbrev pub add_content_type : Text → NavigableConfig → NavigableConfig
add_content_type pattern self = record self { patterns = lower pattern ∷ self.patterns }

-- `ext in navigable_extensions`
abbrev pub has_navigable_extension : NavigableConfig → Text → Bool
has_navigable_extension config ext = is_among (normalize_extension ext) config.extensions

-- `content_type in navigable_content_types`
abbrev pub has_navigable_type : NavigableConfig → Text → Bool
has_navigable_type config content_type =
    if is_empty content_type then false else has_any config.patterns (lower content_type)

unfoldable pub is_navigable : NavigableConfig → Text → Text → Option Bool
is_navigable config extension content_type =
    let ext = normalize_extension extension in
    let ct = lower content_type in
    if is_empty ext && is_empty ct
    then none
    else if is_empty ext
    then some (has_navigable_type config ct)
    else if has_navigable_extension config ext
    then some true
    else some (has_navigable_type config ct)
