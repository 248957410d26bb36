-- ===== src/HttpClient/Info/Sizes.antt =====
-- What `get_file_info` finds, and what it raises.
use sdownload.Prelude.{
  ◌==◌, ◌&&◌, ap, sym, Option, Bool, Bool-cases, Option-cases, arith, subst, ℕ, true, ◌≡◌, ◌⊎◌,
  none, some, refl, ◌∙◌, inl, inr, subst,
}
use sdownload.Prelude.Int.{ℤ}
use sdownload.Models.Text.{Text, codes}
use sdownload.Exceptions.{Exc, Result, ok, err, is_passed_on, is_sdownload_error, map_httpx_error}
use sdownload.Exceptions.Mapping.{map_httpx_error-IsDomain}
use sdownload.Models.Text.Search.{has_code}
use sdownload.Urls.{url_to_file_name, UrlLibrary}
use sdownload.HttpClient.Crawl.{default_max_length}
use sdownload.HttpClient.Downloader.{ByteResponse, text_or_empty}
use sdownload.HttpClient.Info.{
  sized_info, found_info, HeaderLibrary, ResourceInfo, first_failure, get_file_info, info_of,
  size_and_ranges, map_error, date_of, after_first,
}

module _ (library : HeaderLibrary) (urls : UrlLibrary) (now : ℕ) (url : Text) where
  -- What of a response is in the information that is made of it.
  abbrev Reports : ByteResponse → ℤ × Bool → ResourceInfo → Type 0
  Reports response (size, resumable) info =
      (info.file_size ≡ size)
      × (info.server_accept_ranges ≡ resumable)
      × (info.file_id ≡ response.headers (codes "ETag"))
      × (info.download_url ≡ response.url)

  ok_info : (a b : ResourceInfo) → ok a ≡ ok b → a ≡ b
  ok_info a b h = cc

  map_error-ok :
      (result : Result ResourceInfo) (info : ResourceInfo)
      → map_error library result ≡ ok info
      → result ≡ ok info
  map_error-ok (ok found_one) info h = h
  map_error-ok (err e) info h = absurd cc

  found_info-Reports :
      (response : ByteResponse) (size : ℤ) (resumable : Bool) (name : Text) (info : ResourceInfo)
      → found_info library now response (size, resumable) name ≡ ok info
      → Reports response (size, resumable) info
  found_info-Reports response size resumable name info h =
      elim (Option-cases (first_failure library response.body)) [
        | inr (e, fails) ↦ absurd (let bad = rw (found_info, fails) at h in cc)
        | inl reads ↦
            elim (Option-cases
              (date_of library now (text_or_empty (response.headers (codes "Last-Modified"))))) [
                | inl undated ↦ absurd (let bad = rw (found_info, reads, undated) at h in cc)
                | inr (date_created, dated) ↦
                    let same = ok_info _ info (rw (found_info, reads, dated) at h) in
                    (
                      sym (ap (λ i. i.file_size) same),
                      sym (ap (λ i. i.server_accept_ranges) same),
                      sym (ap (λ i. i.file_id) same),
                      sym (ap (λ i. i.download_url) same),
                    )
              ]
      ]

  sized_info-Reports :
      (response : ByteResponse) (sized : Option (ℤ × Bool)) (info : ResourceInfo)
      → sized_info library urls now url response sized ≡ ok info
      → (size : ℤ) × (resumable : Bool) × (sized ≡ some (size, resumable))
        × Reports response (size, resumable) info
  sized_info-Reports response none info h = absurd cc
  sized_info-Reports response (some (size, resumable)) info h =
      elim (Option-cases (url_to_file_name urls default_max_length url)) [
        | inl nameless ↦ absurd (let bad = rw (sized_info, nameless) at h in cc)
        | inr (name, named) ↦ (
          size,
          resumable,
          refl,
          found_info-Reports response size resumable name info (rw (sized_info, named) at h),
        )
      ]

  size_and_ranges-resumable :
      (response : ByteResponse) (size : ℤ)
      → size_and_ranges library response ≡ some (size, true)
      → let content_range = text_or_empty (response.headers (codes "Content-Range")) in
        (response.status_code ≡ 206)
        × (has_code b'/' content_range ≡ true)
        × (library.int (after_first b'/' content_range) ≡ some size)
  unfolding size_and_ranges
  size_and_ranges-resumable response size h =
      let content_range = text_or_empty (response.headers (codes "Content-Range")) in
      let partial : (response.status_code == 206 && has_code b'/' content_range) ≡ true =
        elim (Bool-cases (response.status_code == 206 && has_code b'/' content_range)) [
          | inl b ↦ b
          | inr b ↦ absurd (grind arith)
        ] in
      let number : library.int (after_first b'/' content_range) ≡ some size = ground arith in
      (ground (arith, partial), ground (arith, partial), number)

  -- `get_file_info` tells that a file can be resumed only after a successful answer with status 206 whose
  -- Content-Range has a slash. The size that it tells is the number behind the first slash, the file's
  -- id the ETag, and the URL the one that answered.
  pub get_file_info-resumed :
      (answer : Result ByteResponse) (info : ResourceInfo)
      → get_file_info library urls now url answer ≡ ok info
      → info.server_accept_ranges ≡ true
      → (response : ByteResponse) × (answer ≡ ok response)
        × (response.is_success ≡ true)
        × (response.status_code ≡ 206)
        × (has_code b'/' (text_or_empty (response.headers (codes "Content-Range"))) ≡ true)
        × (library.int (after_first b'/' (text_or_empty (response.headers (codes "Content-Range"))))
            ≡ some info.file_size)
        × (info.file_id ≡ response.headers (codes "ETag"))
        × (info.download_url ≡ response.url)
  unfolding get_file_info
  get_file_info-resumed (err e) info h accepts = absurd cc
  get_file_info-resumed (ok response) info h accepts =
      let found_one = map_error-ok (info_of library urls now url (ok response)) info h in
      elim (Bool-cases response.is_success) [
        | inr fails ↦ absurd (let bad = rw fails at found_one in cc)
        | inl success ↦
            let (size, resumable, sized, (told, ranges, tag, place)) =
              sized_info-Reports response (size_and_ranges library response) info
                (simp success at found_one) in
            let known : size_and_ranges library response ≡ some (info.file_size, true) =
              sized
              ∙ (ap (λ z. some (z, resumable)) (sym told)
                  ∙ ap (λ b. some (info.file_size, b)) (sym ranges ∙ accepts)) in
            let (status, slash, number) = size_and_ranges-resumable response info.file_size known in
            (response, refl, success, status, slash, number, tag, place)
      ]

  map_error-IsDomain :
      (result : Result ResourceInfo) (e : Exc)
      → map_error library result ≡ err e
      → (is_passed_on e ≡ true) ⊎ (is_sdownload_error e ≡ true)
  map_error-IsDomain (ok info) e h = absurd cc
  map_error-IsDomain (err x) e h =
      let same : map_httpx_error x ≡ e = cc in
      subst (λ y. (is_passed_on y ≡ true) ⊎ (is_sdownload_error y ≡ true)) same
        (map_httpx_error-IsDomain x)

  -- It raises Python's argument errors and SDownload's own errors, nothing else.
  pub get_file_info-IsDomain :
      (answer : Result ByteResponse) (e : Exc)
      → get_file_info library urls now url answer ≡ err e
      → (is_passed_on e ≡ true) ⊎ (is_sdownload_error e ≡ true)
  unfolding get_file_info
  get_file_info-IsDomain answer e h = map_error-IsDomain (info_of library urls now url answer) e h
