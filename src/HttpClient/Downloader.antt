-- ===== src/HttpClient/Downloader.antt =====
-- http_client/httpx_downloader.py: one ranged download. httpx is a parameter:
-- its answer to the request, and what it yields.
pub mod Serves
use sdownload.Prelude.{
  ℕ, zero, suc, ◌+◌, Bool, true, false, not, ◌&&◌, ◌==◌, leb, ◌≡◌, Option, none, some, List, [],
  ◌∷◌, ◌++◌, if◌then◌else◌, ◌>>=◌, length, drop,
}
use sdownload.Prelude.Int.{ℤ, pos, negsuc}
use sdownload.Models.Text.{Text, codes, decimal, text_beq}
use sdownload.Models.Text.Search.{is_empty, has_text, has_code, starts_with, strip}
use sdownload.Exceptions.{
  Exc, Result, ok, err, value_error, http_status_error, file_id_mismatch_error, resource_info_error,
  map_httpx_error,
}
use sdownload.Storage.Protocol.{Bytes, Stream}
use sdownload.Urls.{UrlLibrary, url_to_file_name}
use sdownload.HttpClient.Crawl.{default_max_length}

-- `SingleProxyConfigModel` and the fields of `ProxyConfigModel` that are read.
pub record SingleProxyConfig : Type 0 where
  pub protocol : Text
  pub host : Text
  pub port : ℕ
  pub username : Option Text
  pub password : Option Text

pub record ProxyConfig : Type 0 where
  pub http : Option SingleProxyConfig
  pub https : Option SingleProxyConfig
  pub default : Option SingleProxyConfig

abbrev pub text_or_empty : Option Text → Text
text_or_empty none = []
text_or_empty (some text) = text

-- `_build_proxy_url`
unfoldable pub build_proxy_url : SingleProxyConfig → Text
build_proxy_url spc =
    let username = text_or_empty spc.username in
    let password = text_or_empty spc.password in
    let auth =
      if not (is_empty username) && not (is_empty password)
      then username ++ codes ":" ++ password ++ codes "@"
      else [] in
    spc.protocol ++ codes "://" ++ auth ++ spc.host ++ codes ":" ++ decimal spc.port

abbrev pub or_else : Option SingleProxyConfig → Option SingleProxyConfig → Option SingleProxyConfig
or_else none other = other
or_else (some spc) other = some spc

abbrev pub proxy_entry : Text → Option SingleProxyConfig → List (Text × Text)
proxy_entry scheme none = []
proxy_entry scheme (some spc) = (scheme ++ codes "://", build_proxy_url spc) ∷ []

-- The mapping of `_get_client`, which the client that it makes does not get.
unfoldable pub proxy_mapping : ProxyConfig → List (Text × Text)
proxy_mapping proxy =
    proxy_entry (codes "http") (or_else proxy.http proxy.default)
    ++ proxy_entry (codes "https") (or_else proxy.https proxy.default)

-- The response of a stream: `is_success` is what `raise_for_status` asks for.
pub record ByteResponse : Type 0 where
  pub url : Text
  pub scheme : Text
  pub status_code : ℕ
  pub is_success : Bool
  pub headers : Text → Option Text
  pub body : Stream

-- The `Range` header of `download_chunk`, `none` where it sends no such header.
unfoldable pub range_header : ℤ → Option ℤ → Result (Option Text)
range_header (negsuc n) end_byte = err value_error
range_header (pos start_byte) none = ok (some (codes "bytes=" ++ decimal start_byte ++ codes "-"))
range_header (pos start_byte) (some (negsuc n)) = ok none
range_header (pos start_byte) (some (pos end_byte)) =
    if leb start_byte end_byte
    then ok (some (codes "bytes=" ++ decimal start_byte ++ codes "-" ++ decimal end_byte))
    else ok none

-- `file_id and etag != file_id`
abbrev pub is_mismatch : Option Text → Option Text → Bool
is_mismatch none etag = false
is_mismatch (some file_id) none = not (is_empty file_id)
is_mismatch (some file_id) (some etag) = not (is_empty file_id) && not (text_beq etag file_id)

abbrev pub failed_with : Exc → Stream
failed_with e = record { pieces = []; failure = some (map_httpx_error e) }

abbrev pub map_failure : Option Exc → Option Exc
map_failure none = none
map_failure (some e) = some (map_httpx_error e)

-- What the block yields once the response is there.
abbrev pub stream_response : Option Text → ByteResponse → Stream
stream_response file_id response =
    if not response.is_success
    then failed_with (http_status_error response.status_code)
    else if is_mismatch file_id (response.headers (codes "ETag"))
    then failed_with file_id_mismatch_error
    else record { pieces = response.body.pieces; failure = map_failure response.body.failure }

abbrev pub stream_answer : Option Text → Result ByteResponse → Stream
stream_answer file_id (err e) = failed_with e
stream_answer file_id (ok response) = stream_response file_id response

abbrev pub send : (Option Text → Result ByteResponse) → Option Text → Result (Option Text) → Stream
send server file_id (err e) = record { pieces = []; failure = some e }
send server file_id (ok header) = stream_answer file_id (server header)

-- `download_chunk`, as what it yields and the exception that ends it; `server` is given the `Range`
-- header.
unfoldable pub download_chunk :
    (Option Text → Result ByteResponse) → ℤ → Option ℤ → Option Text → Stream
download_chunk server start_byte end_byte file_id =
    send server file_id (range_header start_byte end_byte)

-- A range's end as the argument `end_byte`.
abbrev pub end_pos : Option ℕ → Option ℤ
end_pos none = none
end_pos (some e) = some (pos e)
