-- ===== src/Models/Text/Decimal.antt =====
-- Reading back what `decimal` writes.
use sdownload.Prelude.{
  ℕ, zero, suc, ◌+◌, ◌*◌, ◌/◌, ◌%◌, ◌-◌, ◌<◌, ◌≡◌, refl, ap, ◌∙◌, Bool, true, false, [], ◌∷◌, ◌++◌,
  arith, ltb, if◌then◌else◌, Bool-cases, inl, inr,
}
use sdownload.Models.Text.{Text, decimal, digits_before}
use sdownload.Models.Text.Search.{between, is_empty}

-- The number that the digits in front are, after the digits read so far, and the rest.
abbrev pub read_digits : ℕ → Text → ℕ × Text
read_digits n [] = (n, [])
read_digits n (c ∷ s) =
    let more = read_digits (10 * n + (c - b'0')) s in
    if between b'0' b'9' c then more else (n, c ∷ s)

-- The text does not start with a digit.
abbrev pub starts_with_digit : Text → Bool
starts_with_digit [] = false
starts_with_digit (c ∷ s) = between b'0' b'9' c

pub read_digits_stop : (n : ℕ) (s : Text) → starts_with_digit s ≡ false → read_digits n s ≡ (n, s)
read_digits_stop n [] h = refl
read_digits_stop n (c ∷ s) h = rw h refl

read_digits-digit :
    (m n : ℕ) (rest : Text)
    → n ≡ 10 * m + n % 10
    → read_digits m ((b'0' + n % 10) ∷ rest) ≡ read_digits n rest
read_digits-digit m n rest h =
    let digit : between b'0' b'9' (b'0' + n % 10) ≡ true = ground arith in
    let same : 10 * m + (b'0' + n % 10 - b'0') ≡ n = omega (arith, h) in rw (digit, same) refl

module _ (fuel n : ℕ) (rest : Text) where
  last_digit : ltb n 10 ≡ true → digits_before (suc fuel) n rest ≡ (b'0' + n % 10) ∷ rest
  unfolding digits_before
  last_digit e = rw (digits_before, e) refl

  more_digits :
      ltb n 10 ≡ false
      → digits_before (suc fuel) n rest ≡ digits_before fuel (n / 10) ((b'0' + n % 10) ∷ rest)
  unfolding digits_before
  more_digits e = rw (digits_before, e) refl

read_digits-digits_before :
    (fuel n : ℕ) (rest : Text)
    → n < fuel
    → read_digits 0 (digits_before fuel n rest) ≡ read_digits n rest
read_digits-digits_before zero n rest h = absurd (omega arith)
read_digits-digits_before (suc fuel) n rest h = elim (Bool-cases (ltb n 10)) [
  | inl e ↦ rw (last_digit fuel n rest e) (read_digits-digit 0 n rest (ground (arith, e)))
  | inr e ↦
      let big : n / 10 < fuel = ground (arith, e) in
      let split : n ≡ 10 * (n / 10) + n % 10 = omega arith in
      rw (more_digits fuel n rest e) (
        read_digits-digits_before fuel (n / 10) ((b'0' + n % 10) ∷ rest) big
        ∙ read_digits-digit (n / 10) n rest split)
]

digits_before-append :
    (fuel n : ℕ) (s rest : Text) → digits_before fuel n s ++ rest ≡ digits_before fuel n (s ++ rest)
unfolding digits_before
digits_before-append zero n s rest = refl
digits_before-append (suc fuel) n s rest = elim (Bool-cases (ltb n 10)) [
  | inl e ↦ rw (last_digit fuel n s e, last_digit fuel n (s ++ rest) e) refl
  | inr e ↦
      rw (more_digits fuel n s e, more_digits fuel n (s ++ rest) e)
        (digits_before-append fuel (n / 10) ((b'0' + n % 10) ∷ s) rest)
]

-- A number in front of a text that starts with no digit is read back.
pub read_digits-decimal :
    (n : ℕ) (rest : Text)
    → starts_with_digit rest ≡ false
    → read_digits 0 (decimal n ++ rest) ≡ (n, rest)
unfolding decimal
read_digits-decimal n rest h =
    ap (read_digits 0) (digits_before-append (n + 1) n [] rest)
    ∙ (read_digits-digits_before (n + 1) n rest (omega arith) ∙ read_digits_stop n rest h)

digits_before-nonempty :
    (fuel n c : ℕ) (rest : Text) → is_empty (digits_before fuel n (c ∷ rest)) ≡ false
unfolding digits_before
digits_before-nonempty zero n c rest = refl
digits_before-nonempty (suc fuel) n c rest = elim (Bool-cases (ltb n 10)) [
  | inl e ↦ rw (last_digit fuel n (c ∷ rest) e) refl
  | inr e ↦
      rw (more_digits fuel n (c ∷ rest) e)
        (digits_before-nonempty fuel (n / 10) (b'0' + n % 10) (c ∷ rest))
]

pub decimal-nonempty : (n : ℕ) → is_empty (decimal n) ≡ false
unfolding decimal
decimal-nonempty n =
    let fuel : n + 1 ≡ suc n = omega arith in
    rw fuel (elim (Bool-cases (ltb n 10)) [
      | inl e ↦ rw (last_digit n n [] e) refl
      | inr e ↦ rw (more_digits n n [] e) (digits_before-nonempty n (n / 10) (b'0' + n % 10) [])
    ])
