-- ===== src/Models/Text/Search.antt =====
-- The methods of Python's `str` that the URL helpers and the HTTP client use. Letters are ASCII's:
-- `lower` leaves every other code point as it is.
use sdownload.Prelude.{
  ℕ, zero, suc, ◌+◌, ◌-◌, Bool, true, false, ◌&&◌, ◌||◌, List, [], ◌∷◌, map, leb, ◌==◌,
  if◌then◌else◌, reverse, length, drop,
}
use sdownload.Models.Text.{Text, text_beq}

abbrev pub between : ℕ → ℕ → ℕ → Bool
between low high c = leb low c && leb c high

abbrev pub lower_code : ℕ → ℕ
lower_code c = if between b'A' b'Z' c then c + 32 else c

-- `s.lower()`
abbrev pub lower : Text → Text
lower s = map lower_code s

-- `[a-zA-Z0-9]`
abbrev pub is_alnum : ℕ → Bool
is_alnum c = between b'a' b'z' c || between b'A' b'Z' c || between b'0' b'9' c

-- `c in s` for one character
abbrev pub has_code : ℕ → Text → Bool
has_code c [] = false
has_code c (x ∷ s) = x == c || has_code c s

-- `s.startswith(pattern)`
abbrev pub starts_with : Text → Text → Bool
starts_with [] s = true
starts_with (c ∷ pattern) [] = false
starts_with (c ∷ pattern) (x ∷ s) = c == x && starts_with pattern s

-- `pattern in s`
abbrev pub has_text : Text → Text → Bool
has_text pattern [] = starts_with pattern []
has_text pattern (x ∷ s) = starts_with pattern (x ∷ s) || has_text pattern s

-- `any(pattern in s for pattern in patterns)`
abbrev pub has_any : List Text → Text → Bool
has_any [] s = false
has_any (pattern ∷ patterns) s = has_text pattern s || has_any patterns s

-- `s in texts`
abbrev pub is_among : Text → List Text → Bool
is_among s [] = false
is_among s (t ∷ texts) = text_beq t s || is_among s texts

-- `s.endswith(c)` for one character
abbrev pub ends_with_code : ℕ → Text → Bool
ends_with_code c s = starts_with (c ∷ []) (reverse s)

abbrev pub is_empty : Text → Bool
is_empty [] = true
is_empty (x ∷ s) = false

abbrev pub drop_while : (ℕ → Bool) → Text → Text
drop_while p [] = []
drop_while p (x ∷ s) = let rest = drop_while p s in if p x then rest else x ∷ s

-- `s.rstrip(c)`
abbrev pub rstrip : ℕ → Text → Text
rstrip c s = reverse (drop_while (λ x. x == c) (reverse s))

-- `s.strip(c)`
abbrev pub strip : ℕ → Text → Text
strip c s = rstrip c (drop_while (λ x. x == c) s)

-- ASCII's white space.
abbrev pub is_space : ℕ → Bool
is_space c = c == b' ' || between 9 13 c || between 28 31 c

-- `s.strip()`
abbrev pub strip_spaces : Text → Text
strip_spaces s = reverse (drop_while is_space (reverse (drop_while is_space s)))

abbrev pub in_front : ℕ → List Text → List Text
in_front c [] = (c ∷ []) ∷ []
in_front c (part ∷ parts) = (c ∷ part) ∷ parts

-- `s.split(c)`
abbrev pub split_on : ℕ → Text → List Text
split_on c [] = [] ∷ []
split_on c (x ∷ s) = let rest = split_on c s in if x == c then [] ∷ rest else in_front x rest

-- `parts[-1]`
abbrev pub last_part : List Text → Text
last_part [] = []
last_part (part ∷ []) = part
last_part (part ∷ next ∷ parts) = last_part (next ∷ parts)

-- `s[-n:]`
abbrev pub last_codes : ℕ → Text → Text
last_codes zero s = s
last_codes (suc n) s = drop (length s - suc n) s
