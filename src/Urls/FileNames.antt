-- ===== src/Urls/FileNames.antt =====
-- The file names that are made from URLs.
use sdownload.Prelude.{
  ℕ, zero, suc, ◌-◌, ◌≡◌, refl, Bool, true, false, not, ◌&&◌, ◌||◌, some, List, [], ◌∷◌, ◌++◌, ◌==◌,
  reverse, length, drop, arith, Option-cases, subst, Bool-cases, inl, inr, ◌∙◌,
}
use mathlib.Core.Option.{some-injective}
use sdownload.Models.Text.{Text, codes, text_beq, text_beq_iff}
use sdownload.Models.Text.Search.{
  has_code, last_part, split_on, in_front, drop_while, rstrip, strip, last_codes, is_empty,
}
use sdownload.Urls.{
  ParsedUrl, UrlLibrary, url_to_file_name, name_of, replace_runs, safe_slugify, common_name,
  slug_of, has_extension, relevant_part,
}

-- No text of the list has the character.
abbrev AllWithout : ℕ → List Text → Type 0
AllWithout c [] = Unit
AllWithout c (part ∷ parts) = (has_code c part ≡ false) × AllWithout c parts

in_front-AllWithout :
    (c x : ℕ) (parts : List Text)
    → (x == c) ≡ false
    → AllWithout c parts
    → AllWithout c (in_front x parts)
in_front-AllWithout c x [] e h = ground (arith, e)
in_front-AllWithout c x (part ∷ parts) e (h, rest) = (ground (arith, e, h), rest)

split_on-AllWithout : (c : ℕ) (s : Text) → AllWithout c (split_on c s)
split_on-AllWithout c [] = ground arith
split_on-AllWithout c (x ∷ s) = elim (Bool-cases (x == c)) [
  | inl e ↦ rw e (refl, split_on-AllWithout c s)
  | inr e ↦ rw e (in_front-AllWithout c x (split_on c s) e (split_on-AllWithout c s))
]

last_part-without :
    (c : ℕ) (parts : List Text) → AllWithout c parts → has_code c (last_part parts) ≡ false
last_part-without c [] h = refl
last_part-without c (part ∷ []) (h, rest) = h
last_part-without c (part ∷ next ∷ parts) (h, rest) = last_part-without c (next ∷ parts) rest

has_code-append : (c : ℕ) (s t : Text) → has_code c (s ++ t) ≡ (has_code c s || has_code c t)
has_code-append c [] t = refl
has_code-append c (x ∷ s) t = ground (arith, has_code-append c s t)

has_code-reverse : (c : ℕ) (s : Text) → has_code c (reverse s) ≡ has_code c s
has_code-reverse c [] = refl
has_code-reverse c (x ∷ s) =
    ground (arith, has_code-append c (reverse s) (x ∷ []), has_code-reverse c s)

has_code-drop : (c n : ℕ) (s : Text) → has_code c s ≡ false → has_code c (drop n s) ≡ false
has_code-drop c zero s h = h
has_code-drop c (suc n) [] h = refl
has_code-drop c (suc n) (x ∷ s) h = has_code-drop c n s (ground (arith, h))

has_code-drop_while :
    (c : ℕ) (p : ℕ → Bool) (s : Text) → has_code c s ≡ false → has_code c (drop_while p s) ≡ false
has_code-drop_while c p [] h = refl
has_code-drop_while c p (x ∷ s) h = ground (arith, h, has_code-drop_while c p s)

has_code-rstrip : (c x : ℕ) (s : Text) → has_code c s ≡ false → has_code c (rstrip x s) ≡ false
has_code-rstrip c x s h =
    let back = has_code-reverse c s ∙ h in
    let dropped = has_code-drop_while c (λ y. y == x) (reverse s) back in
    has_code-reverse c (drop_while (λ y. y == x) (reverse s)) ∙ dropped

has_code-strip : (c x : ℕ) (s : Text) → has_code c s ≡ false → has_code c (strip x s) ≡ false
has_code-strip c x s h =
    has_code-rstrip c x (drop_while (λ y. y == x) s) (has_code-drop_while c (λ y. y == x) s h)

-- A slug has letters, digits and underscores.
replace_runs-without : (in_run : Bool) (s : Text) → has_code b'/' (replace_runs in_run s) ≡ false
unfolding replace_runs
replace_runs-without in_run [] = refl
replace_runs-without in_run (x ∷ s) =
    ground (arith, replace_runs-without false s, replace_runs-without true s)

safe_slugify-without : (s : Text) → has_code b'/' (safe_slugify s) ≡ false
unfolding safe_slugify
safe_slugify-without s =
    has_code-strip b'/' b'_' (replace_runs false s) (replace_runs-without false s)

slug_of-without : (parsed : ParsedUrl) → has_code b'/' (slug_of parsed) ≡ false
unfolding slug_of
slug_of-without parsed =
    ground (arith, safe_slugify-without (relevant_part parsed), safe_slugify-without parsed.netloc)

last_codes-without :
    (c n : ℕ) (s : Text) → has_code c s ≡ false → has_code c (last_codes n s) ≡ false
last_codes-without c zero s h = h
last_codes-without c (suc n) s h = has_code-drop c (length s - suc n) s h

-- A name of the directory itself or of its parent.
abbrev pub is_dots : Text → Bool
is_dots name = text_beq name (codes ".") || text_beq name (codes "..")

has_extension-dots : (name : Text) → has_extension name ≡ true → is_dots name ≡ false
unfolding has_extension
has_extension-dots name h = elim (Bool-cases (text_beq name (codes "."))) [
  | inl e ↦
      let same : name ≡ codes "." = ground (arith, e, text_beq_iff name (codes ".")) in
      absurd (let bad = rw same at h in cc)
  | inr e ↦ elim (Bool-cases (text_beq name (codes ".."))) [
    | inl e2 ↦
        let same : name ≡ codes ".." = ground (arith, e2, text_beq_iff name (codes "..")) in
        absurd (let bad = rw same at h in cc)
    | inr e2 ↦ ground (arith, e, e2)
  ]
]

bin-dots : (s : Text) → is_dots (s ++ codes ".bin") ≡ false
bin-dots [] = refl
bin-dots (x ∷ []) = ground arith
bin-dots (x ∷ y ∷ []) = ground arith
bin-dots (x ∷ y ∷ z ∷ s) = ground arith

abbrev IsFileName : Text → Type 0
IsFileName name = (has_code b'/' name ≡ false) × (is_dots name ≡ false)

name_of-IsFileName : (max_length : ℕ) (parsed : ParsedUrl) → IsFileName (name_of max_length parsed)
unfolding name_of common_name
name_of-IsFileName max_length parsed =
    let parts = split_on b'/' (rstrip b'/' parsed.path) in
    elim (Bool-cases (not (is_empty (common_name parsed)) && has_extension (common_name parsed))) [
      | inl e ↦ rw e (
        last_part-without b'/' parts (split_on-AllWithout b'/' (rstrip b'/' parsed.path)),
        has_extension-dots (common_name parsed) (ground (arith, e)),
      )
      | inr e ↦ rw e (
        has_code-append b'/' (last_codes max_length (slug_of parsed)) (codes ".bin")
            ∙ rw (last_codes-without b'/' max_length (slug_of parsed) (slug_of-without parsed))
                refl,
        bin-dots (last_codes max_length (slug_of parsed)),
      )
    ]

-- A file name that is made from a URL has no slash and is neither `.` nor `..`.
pub url_to_file_name-IsFileName :
    (library : UrlLibrary) (max_length : ℕ) (url name : Text)
    → url_to_file_name library max_length url ≡ some name
    → (has_code b'/' name ≡ false) × (is_dots name ≡ false)
url_to_file_name-IsFileName library max_length url name h =
    elim (Option-cases (library.urlparse url)) [
      | inl e ↦ absurd (let bad = rw e at h in cc)
      | inr (parsed, e) ↦
          let same : name_of max_length parsed ≡ name = some-injective _ _ (rw e at h) in
          subst IsFileName same (name_of-IsFileName max_length parsed)
    ]
