-- ===== src/HttpClient/Info.antt =====
-- http_client/httpx_downloader.py: `get_file_info`, what a file is before it is downloaded.
pub mod Sizes
use sdownload.Prelude.{
  ℕ, zero, suc, ◌+◌, Bool, true, false, not, ◌&&◌, ◌==◌, leb, ◌≡◌, Option, none, some, List, [],
  ◌∷◌, ◌++◌, if◌then◌else◌, ◌>>=◌, length, drop,
}
use sdownload.Prelude.Int.{ℤ, pos, negsuc}
use sdownload.Models.Text.{Text, codes, decimal, text_beq}
use sdownload.Models.Text.Search.{is_empty, has_text, has_code, starts_with, strip}
use sdownload.Exceptions.{
  Exc, Result, ok, err, value_error, http_status_error, file_id_mismatch_error, resource_info_error,
  map_httpx_error,
}
use sdownload.Storage.Protocol.{Stream}
use sdownload.Urls.{UrlLibrary, url_to_file_name}
use sdownload.HttpClient.Crawl.{default_max_length}
use sdownload.HttpClient.Downloader.{ByteResponse, text_or_empty}

-- `ResourceInfo`; the times are numbers.
pub record ResourceInfo : Type 0 where
  pub file_name : Text
  pub file_dir : Text
  pub file_size : ℤ
  pub file_id : Option Text
  pub download_url : Text
  pub transmission_protocol : Text
  pub server_accept_ranges : Bool
  pub file_created_at : ℕ
  pub protocol_data : Text → Option Text

-- Python's `int(text)` and `parsedate_to_datetime`; `none` where they raise.
pub record HeaderLibrary : Type 0 where
  pub int : Text → Option ℤ
  pub parsedate : Text → Option ℕ

-- `text.split(c, 1)[1]`
abbrev pub after_first : ℕ → Text → Text
after_first c [] = []
after_first c (x ∷ s) = let rest = after_first c s in if x == c then s else rest

-- What follows the last place where the pattern stands.
abbrev pub after_last_found : Text → Text → Option Text
after_last_found pattern [] = none
after_last_found pattern (x ∷ s) =
    let later = after_last_found pattern s in
    elim later [
      | some rest ↦ some rest
      | none ↦ if starts_with pattern (x ∷ s) then some (drop (length pattern) (x ∷ s)) else none
    ]

-- `text.split(pattern)[-1]`, of a pattern that does not overlap itself.
abbrev pub after_last : Text → Text → Text
after_last pattern s = elim (after_last_found pattern s) [ none ↦ s | some rest ↦ rest ]

module _ (library : HeaderLibrary) where
  -- `int(headers.get("Content-Length", 0))`
  abbrev pub content_length : ByteResponse → Option ℤ
  content_length response = elim (response.headers (codes "Content-Length")) [
    | none ↦ some (pos 0)
    | some length ↦ library.int length
  ]

  -- The size, and whether ranges are accepted.
  unfoldable pub size_and_ranges : ByteResponse → Option (ℤ × Bool)
  size_and_ranges response =
      let content_range = text_or_empty (response.headers (codes "Content-Range")) in
      if response.status_code == 206 && has_code b'/' content_range
      then library.int (after_first b'/' content_range) >>= (λ size. some (size, true))
      else content_length response >>= (λ size. some (size, false))

  -- The name from the URL, unless the response gives one.
  abbrev pub named_by : Text → Text → Text
  named_by cd file_name =
      if has_text (codes "filename=") cd
      then strip b'"' (after_last (codes "filename=") cd)
      else file_name

  abbrev pub date_of : ℕ → Text → Option ℕ
  date_of now last_mod = if is_empty last_mod then some now else library.parsedate last_mod

  -- The exception that reading the first piece raises.
  abbrev pub first_failure : Stream → Option Exc
  first_failure body = elim body.pieces [ [] ↦ body.failure | piece ∷ pieces ↦ none ]

  abbrev pub found_info : ℕ → ByteResponse → ℤ × Bool → Text → Result ResourceInfo
  found_info now response (size, resumable) url_name = elim (first_failure response.body) [
    | some e ↦ err e
    | none ↦ elim (date_of now (text_or_empty (response.headers (codes "Last-Modified")))) [
      | none ↦ err resource_info_error
      | some date_created ↦ ok (record {
        file_name =
            named_by (text_or_empty (response.headers (codes "Content-Disposition"))) url_name;
        file_dir = codes ".";
        file_size = size;
        file_id = response.headers (codes "ETag");
        download_url = response.url;
        transmission_protocol = response.scheme;
        server_accept_ranges = resumable;
        file_created_at = date_created;
        protocol_data = response.headers;
      })
    ]
  ]

  abbrev pub sized_info :
      UrlLibrary → ℕ → Text → ByteResponse → Option (ℤ × Bool) → Result ResourceInfo
  sized_info urls now url response none = err resource_info_error
  sized_info urls now url response (some size) =
      elim (url_to_file_name urls default_max_length url) [
        | none ↦ err value_error
        | some url_name ↦ found_info now response size url_name
      ]

  abbrev pub info_of : UrlLibrary → ℕ → Text → Result ByteResponse → Result ResourceInfo
  info_of urls now url (err e) = err e
  info_of urls now url (ok response) =
      if response.is_success
      then sized_info urls now url response (size_and_ranges response)
      else err (http_status_error response.status_code)

  abbrev pub map_error : Result ResourceInfo → Result ResourceInfo
  map_error (ok info) = ok info
  map_error (err e) = err (map_httpx_error e)

  -- `get_file_info` at the time `now`; `answer` is the server's to a request for the first byte.
  unfoldable pub get_file_info : UrlLibrary → ℕ → Text → Result ByteResponse → Result ResourceInfo
  get_file_info urls now url answer = map_error (info_of urls now url answer)
