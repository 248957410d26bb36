-- ===== src/HttpClient/Extracted.antt =====
-- The links that the extractors give: none twice, none missed.
use mathlib.Core.Option.{some-injective}
use sdownload.Prelude.{
  refl, sym, In, IsDistinct, IsDistinct-append, In-append_cases, map-append, refl, map, subst, Bool,
  true, false, ◌≡◌, ◌⊎◌, ◌↔◌, Option-cases, Option, none, some, List, [], ◌∷◌, ◌++◌, arith,
  Bool-cases, inl, inr, All, All-append,
}
use sdownload.Models.Text.{Text, codes, text_beq_iff}
use sdownload.Models.Text.Search.{is_among, rstrip, strip_spaces, has_text}
use sdownload.Urls.{UrlLibrary, NavigableConfig, get_url_extension, normalize_url}
use sdownload.HttpClient.Extractors.{
  text, json, ExtractedLink, MatchLibrary, extract, json_links, take_matches, take_url, is_skipped,
  text_links,
}

pub is_among_iff : (s : Text) (texts : List Text) → (is_among s texts ≡ true) ↔ In s texts
is_among_iff s [] = ground arith
is_among_iff s (t ∷ texts) = ground (arith, text_beq_iff t s, is_among_iff s texts)

abbrev pub link_url : ExtractedLink → Text
link_url link = link.url

json_links-unseen :
    (u : Text) (seen matches : List Text)
    → In u (map link_url (json_links seen matches))
    → ¬ In u seen
json_links-unseen u seen [] i = absurd i
json_links-unseen u seen (found ∷ matches) i =
    elim (Bool-cases (is_among (strip_spaces found) seen)) [
      | inl e ↦ json_links-unseen u seen matches (rw e at i)
      | inr e ↦ elim (rw e at i) [
        | inl same ↦ ground (arith, is_among_iff u seen, same, e)
        | inr later ↦ λ s. json_links-unseen u (strip_spaces found ∷ seen) matches later (inr s)
      ]
    ]

json_links-IsDistinct :
    (seen matches : List Text) → IsDistinct (map link_url (json_links seen matches))
json_links-IsDistinct seen [] = ground arith
json_links-IsDistinct seen (found ∷ matches) =
    let raw_link = strip_spaces found in
    elim (Bool-cases (is_among raw_link seen)) [
      | inl e ↦ rw e (json_links-IsDistinct seen matches)
      | inr e ↦ rw e (
        (λ i. json_links-unseen raw_link (raw_link ∷ seen) matches i (inl refl)),
        json_links-IsDistinct (raw_link ∷ seen) matches,
      )
    ]

json_links-found :
    (u : Text) (seen matches : List Text)
    → In u (map strip_spaces matches)
    → In u seen ⊎ In u (map link_url (json_links seen matches))
json_links-found u seen [] i = absurd i
json_links-found u seen (first ∷ matches) i =
    let raw_link = strip_spaces first in
    elim (Bool-cases (is_among raw_link seen)) [
      | inl e ↦ elim i [
        | inl same ↦ rw (e, same) (inl (ground (arith, e, is_among_iff raw_link seen)))
        | inr later ↦ rw e (json_links-found u seen matches later)
      ]
      | inr e ↦ elim i [
        | inl same ↦ rw (e, same) (inr (inl refl))
        | inr later ↦
            elim (json_links-found u (raw_link ∷ seen) matches later)
              as (λ x. In u seen ⊎ In u (map link_url (json_links seen (first ∷ matches)))) [
                | inl (inl same) ↦ rw e (inr (inl same))
                | inl (inr old) ↦ inl old
                | inr new ↦ rw e (inr (inr new))
              ]
      ]
    ]

json_links-from :
    (u : Text) (seen matches : List Text)
    → In u (map link_url (json_links seen matches))
    → In u (map strip_spaces matches)
json_links-from u seen [] i = i
json_links-from u seen (found ∷ matches) i =
    elim (Bool-cases (is_among (strip_spaces found) seen)) [
      | inl e ↦ inr (json_links-from u seen matches (rw e at i))
      | inr e ↦ elim (rw e at i) [
        | inl same ↦ inl same
        | inr later ↦ inr (json_links-from u (strip_spaces found ∷ seen) matches later)
      ]
    ]

-- The links of a JSON document: each match once, and only matches, stripped.
pub json_links_complete :
    (urls : UrlLibrary) (config : NavigableConfig) (library : MatchLibrary)
    (content base_url : Text) (links : List ExtractedLink)
    → extract urls config library json content base_url ≡ some links
    → IsDistinct (map link_url links)
      × ((u : Text)
          → In u (map link_url links) ↔ In u (map strip_spaces (library.abs_url_matches content)))
unfolding extract
json_links_complete urls config library content base_url links e =
    let matches = library.abs_url_matches content in
    subst
      (λ found.
        IsDistinct (map link_url found)
        × ((u : Text) → In u (map link_url found) ↔ In u (map strip_spaces matches)))
      (some-injective _ _ e)
      (
        json_links-IsDistinct [] matches,
        λ u. (
          json_links-from u [] matches,
          λ i. elim (json_links-found u [] matches i) [ inl old ↦ absurd old | inr new ↦ new ],
        ),
      )

module _ (urls : UrlLibrary) (config : NavigableConfig) where
  abbrev normalized : ExtractedLink → Text
  normalized link = rstrip b'/' link.url

  abbrev IsHttp : ExtractedLink → Type 0
  IsHttp link = has_text (codes "http") link.url ≡ true

  -- What the loop keeps: no URL twice, all of them seen, all of them with `http`.
  abbrev IsExtracted : List Text × List ExtractedLink → Type 0
  IsExtracted (seen, links) =
      IsDistinct (map normalized links)
      × ((u : Text) → In u (map normalized links) → In u seen)
      × All IsHttp links

  take_new :
      (seen : List Text) (links : List ExtractedLink) (link : ExtractedLink)
      → is_skipped urls config link.url seen ≡ false
      → IsExtracted (seen, links)
      → IsExtracted (rstrip b'/' link.url ∷ seen, links ++ link ∷ [])
  take_new seen links link skip (distinct, known, http) =
      let unseen : ¬ In (rstrip b'/' link.url) seen =
        ground (arith, skip, is_among_iff (rstrip b'/' link.url) seen) in
      (
        rw (map-append normalized links (link ∷ [])) (
            IsDistinct-append (map normalized links) (rstrip b'/' link.url ∷ []) distinct
              ((λ i. i), ground arith)
              (λ u i j. elim j [
                | inl same ↦ unseen (rw (sym same) (known u i))
                | inr none_left ↦ none_left
              ])),
        (λ u i.
            elim (In-append_cases u (map normalized links) (rstrip b'/' link.url ∷ [])
              (rw (map-append normalized links (link ∷ [])) at i)) [
                | inl old ↦ inr (known u old)
                | inr (inl same) ↦ inl same
                | inr (inr none_left) ↦ absurd none_left
              ]),
        All-append IsHttp links (link ∷ []) http (ground (arith, skip)),
      )

  take_url-IsExtracted :
      (from_native_html : Bool) (st : List Text × List ExtractedLink) (url : Option Text)
      (next : List Text × List ExtractedLink)
      → IsExtracted st
      → take_url urls config from_native_html st url ≡ some next
      → IsExtracted next
  take_url-IsExtracted from_native_html (seen, links) none next h e = absurd cc
  take_url-IsExtracted from_native_html (seen, links) (some url) next h e =
      elim (Bool-cases (is_skipped urls config url seen)) [
        | inl s ↦ subst IsExtracted (some-injective _ _ (rw s at e)) h
        | inr s ↦ elim (Option-cases (get_url_extension urls url)) [
          | inl g ↦ absurd (let bad = rw (s, g) at e in cc)
          | inr (ext, g) ↦
              subst IsExtracted (some-injective _ _ (rw (s, g) at e)) (take_new seen links _ s h)
        ]
      ]

  take_matches-IsExtracted :
      (from_native_html : Bool) (base_url : Text) (matches : List Text)
      (st final : List Text × List ExtractedLink)
      → IsExtracted st
      → take_matches urls config from_native_html base_url matches st ≡ some final
      → IsExtracted final
  unfolding take_matches
  take_matches-IsExtracted from_native_html base_url [] st final h e =
      subst IsExtracted (some-injective _ _ e) h
  take_matches-IsExtracted from_native_html base_url (raw_link ∷ matches) st final h e =
      elim (Option-cases (normalize_url urls raw_link base_url)) [
        | inl n ↦ absurd (let bad = rw n at e in cc)
        | inr (url, n) ↦ elim (Option-cases (take_url urls config from_native_html st url)) [
          | inl g ↦ absurd (let bad = rw (n, g) at e in cc)
          | inr (next, g) ↦
              take_matches-IsExtracted from_native_html base_url matches next final
                (take_url-IsExtracted from_native_html st url next h g) (rw (n, g) at e)
        ]
      ]

  take_matches-empty :
      (from_native_html : Bool) (base_url : Text) (matches : List Text)
      (st : List Text × List ExtractedLink)
      → In [] matches
      → take_matches urls config from_native_html base_url matches st ≡ none
  unfolding take_matches normalize_url
  take_matches-empty from_native_html base_url [] st i = absurd i
  take_matches-empty from_native_html base_url (raw_link ∷ matches) (seen, links) (inl e) =
      rw⁻¹ e refl
  take_matches-empty from_native_html base_url (raw_link ∷ matches) st (inr i) =
      elim (Option-cases (normalize_url urls raw_link base_url)) [
        | inl n ↦ rw n refl
        | inr (url, n) ↦ elim (Option-cases (take_url urls config from_native_html st url)) [
          | inl g ↦ rw (n, g) refl
          | inr (next, g) ↦ rw (n, g) (take_matches-empty from_native_html base_url matches next i)
        ]
      ]

  -- A page with an empty link attribute has no links extracted: the extraction raises.
  pub text_links-raises :
      (library : MatchLibrary) (content base_url : Text)
      → In [] (library.attr_matches content)
      → extract urls config library text content base_url ≡ none
  unfolding extract text_links
  text_links-raises library content base_url i =
      rw (take_matches-empty true base_url (library.attr_matches content) ([], []) i) refl

  -- The links of a page have `http` in them, and no two of them differ only in slashes at the end.
  pub text_links-IsDistinct :
      (library : MatchLibrary) (content base_url : Text) (links : List ExtractedLink)
      → extract urls config library text content base_url ≡ some links
      → IsDistinct (map (λ link. rstrip b'/' link.url) links)
        × All (λ link. has_text (codes "http") link.url ≡ true) links
  unfolding extract text_links
  text_links-IsDistinct library content base_url links e =
      let attrs = take_matches urls config true base_url (library.attr_matches content) ([], []) in
      elim (Option-cases attrs) [
        | inl n ↦ absurd (let bad = rw n at e in cc)
        | inr (st, n) ↦
            elim (Option-cases
              (take_matches urls config false base_url (library.abs_url_matches content) st)) [
                | inl g ↦ absurd (let bad = rw (n, g) at e in cc)
                | inr ((seen, found), g) ↦
                    let start : IsExtracted ([], []) = (ground arith, (λ u i. i), ground arith) in
                    let (distinct, known, http) =
                      take_matches-IsExtracted false base_url (library.abs_url_matches content) st
                        (seen, found)
                        (take_matches-IsExtracted true base_url (library.attr_matches content)
                          ([], []) st start n)
                        g in
                    subst (λ ls. IsDistinct (map normalized ls) × All IsHttp ls)
                      (some-injective _ _ (rw (n, g) at e)) (distinct, http)
              ]
      ]
