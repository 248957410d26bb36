-- ===== src/HttpClient/Downloader/Serves.antt =====
-- The ranges that a download asks for, and what it gets from a server that honours them.
use sdownload.Prelude.{
  length, ltb, ◌<◌, ℕ, ◌+◌, ◌-◌, ◌≤◌, true, false, ◌==◌, leb, ◌≡◌, ◌⊎◌, Option, none, some, [], ◌∷◌,
  ◌++◌, if◌then◌else◌, drop, take, concat, refl, sym, ap, ◌∙◌, arith, inl, inr, subst, append-nil,
  append_assoc, Bool-cases,
}
use mathlib.Core.Option.{some-injective}
use sdownload.Prelude.Int.{ℤ, pos, negsuc}
use sdownload.Models.Text.{Text, codes, decimal}
use sdownload.Models.Text.Search.{starts_with, is_empty}
use sdownload.Models.Text.Decimal.{decimal-nonempty, read_digits, read_digits-decimal}
use sdownload.Exceptions.{
  Exc, Result, ok, err, is_passed_on, is_sdownload_error, map_httpx_error, http_status_error,
  file_id_mismatch_error, download_request_error,
}
use sdownload.Exceptions.Mapping.{map_httpx_error-IsDomain}
use sdownload.Storage.Protocol.{Bytes}
use sdownload.HttpClient.Downloader.{
  end_pos, ByteResponse, range_header, is_mismatch, download_chunk, stream_answer, map_failure,
}

-- How a server reads a byte range: `start-`, or `start-end`.
abbrev pub end_of : ℕ → ℕ × Text → Option (ℕ × Option ℕ)
end_of start (e, []) = some (start, some e)
end_of start (e, x ∷ rest) = none

abbrev pub read_end : ℕ → Text → Option (ℕ × Option ℕ)
read_end start [] = some (start, none)
read_end start (c ∷ s) = end_of start (read_digits 0 (c ∷ s))

abbrev pub after_start : ℕ × Text → Option (ℕ × Option ℕ)
after_start (start, []) = none
after_start (start, c ∷ s) = if c == b'-' then read_end start s else none

abbrev pub read_range : Text → Option (ℕ × Option ℕ)
read_range header =
    if starts_with (codes "bytes=") header
    then after_start (read_digits 0 (drop 6 header))
    else none

abbrev pub IsValidEnd : ℕ → Option ℕ → Type 0
IsValidEnd start none = Unit
IsValidEnd start (some e) = start ≤ e

read_range-text :
    (start : ℕ) (rest : Text)
    → read_range (codes "bytes=" ++ (decimal start ++ b'-' ∷ rest)) ≡ read_end start rest
read_range-text start rest = ap after_start (read_digits-decimal start (b'-' ∷ rest) refl)

read_end-read :
    (start e : ℕ) (s : Text)
    → is_empty s ≡ false
    → read_digits 0 s ≡ (e, [])
    → read_end start s ≡ some (start, some e)
read_end-read start e [] h read = absurd cc
read_end-read start e (c ∷ s) h read = ap (end_of start) read

read_end-decimal : (start e : ℕ) → read_end start (decimal e) ≡ some (start, some e)
read_end-decimal start e =
    read_end-read start e (decimal e) (decimal-nonempty e)
      (ap (read_digits 0) (sym (append-nil (decimal e))) ∙ read_digits-decimal e [] refl)

-- The `Range` header of a valid range is read back as this range.
pub range_header-read_range :
    (start : ℕ) (end : Option ℕ)
    → IsValidEnd start end
    → (header : Text) × (range_header (pos start) (end_pos end) ≡ ok (some header))
      × (read_range header ≡ some (start, end))
unfolding range_header
range_header-read_range start none h =
    (codes "bytes=" ++ decimal start ++ codes "-", refl, read_range-text start [])
range_header-read_range start (some e) h =
    let valid : leb start e ≡ true = ground arith in
    (
      codes "bytes=" ++ decimal start ++ codes "-" ++ decimal e,
      rw valid refl,
      rw (append_assoc (decimal start) (b'-' ∷ []) (decimal e))
          (read_range-text start (decimal e) ∙ read_end-decimal start e),
    )

-- The bytes of a range.
abbrev pub bytes_of : Bytes → ℕ → Option ℕ → Bytes
bytes_of source start none = drop start source
bytes_of source start (some e) = take (e + 1 - start) (drop start source)

-- A server that honours byte ranges of `source`: a valid range that starts in the file is answered with
-- its bytes, under the tag of the file; one that starts behind the file by status 416.
abbrev pub Answers : Bytes → Text → ℕ → Option ℕ → ByteResponse → Type 0
Answers source etag start end response =
    ((start < length source)
      → (response.is_success ≡ true)
        × (response.headers (codes "ETag") ≡ some etag)
        × (response.body.failure ≡ none)
        × (concat response.body.pieces ≡ bytes_of source start end))
    × ((length source ≤ start) → (response.is_success ≡ false) × (response.status_code ≡ 416))

abbrev pub Honours : Bytes → Text → (Option Text → Result ByteResponse) → Type 0
Honours source etag server =
    (header : Text) (start : ℕ) (end : Option ℕ)
    → read_range header ≡ some (start, end)
    → IsValidEnd start end
    → (response : ByteResponse) × (server (some header) ≡ ok response)
      × Answers source etag start end response

-- A download of a valid range that starts in the file yields this range and ends without an exception,
-- if the file is still the expected one.
pub download_chunk-bytes_of :
    (source : Bytes) (etag : Text) (server : Option Text → Result ByteResponse) (start : ℕ)
    (end : Option ℕ) (file_id : Option Text)
    → Honours source etag server
    → IsValidEnd start end
    → start < length source
    → is_mismatch file_id (some etag) ≡ false
    → (concat (download_chunk server (pos start) (end_pos end) file_id).pieces
        ≡ bytes_of source start end)
      × ((download_chunk server (pos start) (end_pos end) file_id).failure ≡ none)
unfolding download_chunk
download_chunk-bytes_of source etag server start end file_id honours valid inside same =
    let (header, sent, read) = range_header-read_range start end valid in
    let (response, answer, (serves, refuses)) = honours header start end read valid in
    let (success, tag, well, bytes) = serves inside in
    rw (sent, answer, success, tag, same) (bytes, rw well refl)

-- A download of another file than the expected one yields nothing and raises FileIDMismatchError.
download_chunk-other_file :
    (source : Bytes) (etag : Text) (server : Option Text → Result ByteResponse) (start : ℕ)
    (end : Option ℕ) (file_id : Option Text)
    → Honours source etag server
    → IsValidEnd start end
    → start < length source
    → is_mismatch file_id (some etag) ≡ true
    → download_chunk server (pos start) (end_pos end) file_id
      ≡ record { pieces = []; failure = some file_id_mismatch_error }
unfolding download_chunk map_httpx_error
download_chunk-other_file source etag server start end file_id honours valid inside other =
    let (header, sent, read) = range_header-read_range start end valid in
    let (response, answer, (serves, refuses)) = honours header start end read valid in
    let (success, tag, well, bytes) = serves inside in rw (sent, answer, success, tag, other) refl

-- A download from behind the end of the file yields nothing and raises DownloadRequestError.
download_chunk-behind :
    (source : Bytes) (etag : Text) (server : Option Text → Result ByteResponse) (start : ℕ)
    (end : Option ℕ) (file_id : Option Text)
    → Honours source etag server
    → IsValidEnd start end
    → length source ≤ start
    → download_chunk server (pos start) (end_pos end) file_id
      ≡ record { pieces = []; failure = some download_request_error }
unfolding download_chunk map_httpx_error
download_chunk-behind source etag server start end file_id honours valid behind =
    let (header, sent, read) = range_header-read_range start end valid in
    let (response, answer, (serves, refuses)) = honours header start end read valid in
    let (fails, status) = refuses behind in rw (sent, answer, fails, status) refl

-- What a download of a range from `source` under the tag is to yield, and the exception at its end.
abbrev pub served : Bytes → Text → ℕ → Option ℕ → Option Text → Bytes × Option Exc
served source etag start end file_id =
    if ltb start (length source)
    then if is_mismatch file_id (some etag)
      then ([], some file_id_mismatch_error)
      else (bytes_of source start end, none)
    else ([], some download_request_error)

-- From a server that honours byte ranges, a download of a valid range that starts in the file yields
-- these bytes of the file and ends without an exception, if the tag is the expected one; with another
-- tag it yields nothing and raises FileIDMismatchError. A range that starts behind the end of the file
-- yields nothing and raises DownloadRequestError.
pub download_chunk-served :
    (source : Bytes) (etag : Text) (server : Option Text → Result ByteResponse) (start : ℕ)
    (end : Option ℕ) (file_id : Option Text)
    → Honours source etag server
    → IsValidEnd start end
    → let stream = download_chunk server (pos start) (end_pos end) file_id in
      (concat stream.pieces, stream.failure) ≡ served source etag start end file_id
download_chunk-served source etag server start end file_id honours valid =
    elim (Bool-cases (ltb start (length source))) [
      | inl inside ↦
          let within : start < length source = ground arith in
          elim (Bool-cases (is_mismatch file_id (some etag))) [
            | inl other ↦
                rw (inside, other)
                  (ap (λ stream. (concat stream.pieces, stream.failure))
                    (download_chunk-other_file source etag server start end file_id honours valid
                      within other))
            | inr same ↦
                let (bytes, fine) =
                  download_chunk-bytes_of source etag server start end file_id honours valid within
                    same in
                rw (inside, same, bytes, fine) refl
          ]
      | inr outside ↦ rw outside (
          ap (λ stream. (concat stream.pieces, stream.failure))
            (download_chunk-behind source etag server start end file_id honours valid
              (ground arith)))
    ]

-- Another file than the expected one yields nothing: the download fails with FileIDMismatchError.
pub download_chunk-mismatch :
    (server : Option Text → Result ByteResponse) (start : ℕ) (end : Option ℕ)
    (file_id header : Text) (response : ByteResponse)
    → range_header (pos start) (end_pos end) ≡ ok (some header)
    → server (some header) ≡ ok response
    → response.is_success ≡ true
    → is_mismatch (some file_id) (response.headers (codes "ETag")) ≡ true
    → download_chunk server (pos start) (end_pos end) (some file_id)
      ≡ record { pieces = []; failure = some file_id_mismatch_error }
unfolding download_chunk map_httpx_error
download_chunk-mismatch server start end file_id header response sent answer success other =
    rw (sent, answer, success, other) refl

map_failure-IsDomain :
    (failure : Option Exc) (e : Exc)
    → map_failure failure ≡ some e
    → (is_passed_on e ≡ true) ⊎ (is_sdownload_error e ≡ true)
map_failure-IsDomain none e h = absurd cc
map_failure-IsDomain (some f) e h =
    subst (λ x. (is_passed_on x ≡ true) ⊎ (is_sdownload_error x ≡ true)) (some-injective _ _ h)
      (map_httpx_error-IsDomain f)

stream_answer-IsDomain :
    (file_id : Option Text) (answer : Result ByteResponse) (e : Exc)
    → (stream_answer file_id answer).failure ≡ some e
    → (is_passed_on e ≡ true) ⊎ (is_sdownload_error e ≡ true)
stream_answer-IsDomain file_id (err x) e h = map_failure-IsDomain (some x) e h
stream_answer-IsDomain file_id (ok response) e h =
    let etag = response.headers (codes "ETag") in
    elim (Bool-cases response.is_success) [
      | inl s ↦ elim (Bool-cases (is_mismatch file_id etag)) [
        | inl m ↦ map_failure-IsDomain (some file_id_mismatch_error) e (rw (s, m) at h)
        | inr m ↦ map_failure-IsDomain response.body.failure e (rw (s, m) at h)
      ]
      | inr s ↦ map_failure-IsDomain (some (http_status_error response.status_code)) e (rw s at h)
    ]

-- A download fails with Python's argument errors and SDownload's own errors, nothing else.
pub download_chunk-IsDomain :
    (server : Option Text → Result ByteResponse) (start : ℤ) (end : Option ℤ)
    (file_id : Option Text) (e : Exc)
    → (download_chunk server start end file_id).failure ≡ some e
    → (is_passed_on e ≡ true) ⊎ (is_sdownload_error e ≡ true)
unfolding download_chunk range_header is_passed_on
download_chunk-IsDomain server (negsuc n) end file_id e h =
    inl (subst (λ x. is_passed_on x ≡ true) (some-injective _ _ h) refl)
download_chunk-IsDomain server (pos start) none file_id e h = stream_answer-IsDomain file_id _ e h
download_chunk-IsDomain server (pos start) (some (negsuc n)) file_id e h =
    stream_answer-IsDomain file_id (server none) e h
download_chunk-IsDomain server (pos start) (some (pos end)) file_id e h =
    elim (Bool-cases (leb start end)) [
      | inl b ↦ stream_answer-IsDomain file_id _ e (rw b at h)
      | inr b ↦ stream_answer-IsDomain file_id (server none) e (rw b at h)
    ]
