-- ===== src/Urls/Navigable.antt =====
-- Extensions that are added are navigable in every spelling.
use sdownload.Prelude.{
  some, true, arith, map-append, ℕ, ◌≡◌, Bool, false, [], ◌∷◌, ◌++◌, ◌==◌, reverse, refl, sym, ap,
  ◌∙◌, Bool-cases, inl, inr, append_assoc, append-nil,
}
use sdownload.Models.Text.{Text, text_beq_iff}
use sdownload.Urls.{
  NavigableConfig, normalize_extension, add_extension, is_navigable, has_navigable_extension,
}
use sdownload.Models.Text.Search.{is_empty, lower_code, lower, drop_while, rstrip, strip}

reverse-append : (s t : Text) → reverse (s ++ t) ≡ reverse t ++ reverse s
reverse-append [] t = sym (append-nil (reverse t))
reverse-append (x ∷ s) t =
    ap (λ r. r ++ x ∷ []) (reverse-append s t) ∙ append_assoc (reverse t) (reverse s) (x ∷ [])

reverse-reverse : (s : Text) → reverse (reverse s) ≡ s
reverse-reverse [] = refl
reverse-reverse (x ∷ s) = reverse-append (reverse s) (x ∷ []) ∙ ap (λ r. x ∷ r) (reverse-reverse s)

drop_while-drop_while : (p : ℕ → Bool) (s : Text) → drop_while p (drop_while p s) ≡ drop_while p s
drop_while-drop_while p [] = refl
drop_while-drop_while p (x ∷ s) = elim (Bool-cases (p x)) [
  | inl e ↦ rw e (drop_while-drop_while p s)
  | inr e ↦ rw e (rw e refl)
]

-- The front of a text that starts with a kept character is kept.
drop_while-append :
    (p : ℕ → Bool) (s : Text) (x : ℕ)
    → p x ≡ false
    → drop_while p (s ++ x ∷ []) ≡ drop_while p s ++ x ∷ []
drop_while-append p [] x e = rw e refl
drop_while-append p (y ∷ s) x e = elim (Bool-cases (p y)) [
  | inl f ↦ rw f (drop_while-append p s x e)
  | inr f ↦ rw f refl
]

module _ (c : ℕ) where
  abbrev is_c : ℕ → Bool
  is_c x = x == c

  rstrip-cons : (x : ℕ) (s : Text) → is_c x ≡ false → rstrip c (x ∷ s) ≡ x ∷ rstrip c s
  rstrip-cons x s e =
      ap reverse (drop_while-append is_c (reverse s) x e)
      ∙ reverse-append (drop_while is_c (reverse s)) (x ∷ [])

  rstrip-rstrip : (s : Text) → rstrip c (rstrip c s) ≡ rstrip c s
  rstrip-rstrip s =
      ap (λ t. reverse (drop_while is_c t)) (reverse-reverse (drop_while is_c (reverse s)))
      ∙ ap reverse (drop_while-drop_while is_c (reverse s))

  -- Stripping the front commutes with stripping the end.
  lstrip-rstrip :
      (s : Text) → drop_while is_c (rstrip c (drop_while is_c s)) ≡ rstrip c (drop_while is_c s)
  lstrip-rstrip [] = refl
  lstrip-rstrip (x ∷ s) = elim (Bool-cases (is_c x)) [
    | inl e ↦ rw e (lstrip-rstrip s)
    | inr e ↦ rw e (rw (rstrip-cons x s e) (rw e refl))
  ]

  strip-strip : (s : Text) → strip c (strip c s) ≡ strip c s
  strip-strip s = ap (rstrip c) (lstrip-rstrip s) ∙ rstrip-rstrip (drop_while is_c s)

dot_same : (x : ℕ) → (lower_code x == b'.') ≡ (x == b'.')
dot_same x = ground arith

lower_code-lower_code : (x : ℕ) → lower_code (lower_code x) ≡ lower_code x
lower_code-lower_code x = ground arith

lower-lower : (s : Text) → lower (lower s) ≡ lower s
lower-lower [] = refl
lower-lower (x ∷ s) =
    ap (λ y. y ∷ lower (lower s)) (lower_code-lower_code x)
    ∙ ap (λ t. lower_code x ∷ t) (lower-lower s)

lower-reverse : (s : Text) → lower (reverse s) ≡ reverse (lower s)
lower-reverse [] = refl
lower-reverse (x ∷ s) =
    map-append lower_code (reverse s) (x ∷ []) ∙ ap (λ t. t ++ lower_code x ∷ []) (lower-reverse s)

lower-drop_while : (s : Text) → lower (drop_while (is_c b'.') s) ≡ drop_while (is_c b'.') (lower s)
lower-drop_while [] = refl
lower-drop_while (x ∷ s) = elim (Bool-cases (x == b'.')) [
  | inl e ↦ rw (dot_same x, e) (lower-drop_while s)
  | inr e ↦ rw (dot_same x, e) refl
]

lower-rstrip : (s : Text) → lower (rstrip b'.' s) ≡ rstrip b'.' (lower s)
lower-rstrip s =
    lower-reverse (drop_while (is_c b'.') (reverse s))
    ∙ (ap reverse (lower-drop_while (reverse s))
        ∙ ap (λ t. reverse (drop_while (is_c b'.') t)) (lower-reverse s))

normalize_extension-idempotent :
    (ext : Text) → normalize_extension (normalize_extension ext) ≡ normalize_extension ext
normalize_extension-idempotent ext =
    ap (strip b'.') (
      lower-rstrip (drop_while (is_c b'.') (lower ext))
      ∙ ap (rstrip b'.') (lower-drop_while (lower ext)))
    ∙ (strip-strip b'.' (lower (lower ext)) ∙ ap (strip b'.') (lower-lower ext))

-- An extension that was added is navigable in every spelling of its letters and with dots around it,
-- whatever the content type is.
pub is_navigable-add_extension :
    (config : NavigableConfig) (added ext content_type : Text)
    → normalize_extension ext ≡ normalize_extension added
    → is_empty (normalize_extension ext) ≡ false
    → is_navigable (add_extension added config) ext content_type ≡ some true
unfolding is_navigable
is_navigable-add_extension config added ext content_type same named =
    let known : has_navigable_extension (add_extension added config) (normalize_extension ext)
        ≡ true =
      ground (
        arith,
        normalize_extension-idempotent ext,
        same,
        text_beq_iff (normalize_extension added) (normalize_extension (normalize_extension ext)),
      ) in
    rw (named, known) refl
