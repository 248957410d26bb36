-- ===== src/Prelude/Sort.antt =====
-- Python's `sorted`: stable, by a numeric key.
use Prim.Native.Nat.{ℕ, ◌≤◌}
use mathlib.Core.Path.{◌≡◌}
use mathlib.Core.Logic.{◌⊎◌, inl, inr}
use mathlib.Core.Bool.{Bool, true, false}
use mathlib.Core.List.{List, [], ◌∷◌, ◌++◌}
use native.Mathlib.Omega.{arith}
use sdownload.Prelude.Tests.{leb}
use sdownload.Prelude.Lists.{In, filter, reverse}

module _ {A : Type 0} (key : A → ℕ) where
  abbrev pub insert_sorted : A → List A → List A
  insert_sorted a [] = a ∷ []
  insert_sorted a (x ∷ xs) =
      let rest = insert_sorted a xs in
      elim (leb (key a) (key x)) [ true ↦ a ∷ x ∷ xs | false ↦ x ∷ rest ]

  abbrev pub sorted : List A → List A
  sorted [] = []
  sorted (x ∷ xs) = insert_sorted x (sorted xs)

  pub In-insert_sorted : (a b : A) (xs : List A) → (a ≡ b) ⊎ In a xs → In a (insert_sorted b xs)
  In-insert_sorted a b [] h = h
  In-insert_sorted a b (x ∷ xs) h = ground (arith, In-insert_sorted a b xs)

  pub In-insert_sorted_cases :
      (a b : A) (xs : List A) → In a (insert_sorted b xs) → (a ≡ b) ⊎ In a xs
  In-insert_sorted_cases a b [] h = h
  In-insert_sorted_cases a b (x ∷ xs) h = ground (arith, In-insert_sorted_cases a b xs)

  pub In-sorted : (a : A) (xs : List A) → In a xs → In a (sorted xs)
  In-sorted a [] h = h
  In-sorted a (x ∷ xs) (inl e) = In-insert_sorted a x (sorted xs) (inl e)
  In-sorted a (x ∷ xs) (inr h) = In-insert_sorted a x (sorted xs) (inr (In-sorted a xs h))

  pub In-sorted_cases : (a : A) (xs : List A) → In a (sorted xs) → In a xs
  In-sorted_cases a [] h = h
  In-sorted_cases a (x ∷ xs) h =
      ground (arith, In-insert_sorted_cases a x (sorted xs) h, In-sorted_cases a xs)

-- A list of numbers that rises, or falls, at every pair of places.
abbrev pub IsAbove : ℕ → List ℕ → Type 0
IsAbove a [] = Unit
IsAbove a (x ∷ xs) = (a ≤ x) × IsAbove a xs

abbrev pub IsAscending : List ℕ → Type 0
IsAscending [] = Unit
IsAscending (x ∷ xs) = IsAbove x xs × IsAscending xs

abbrev pub IsBelow : ℕ → List ℕ → Type 0
IsBelow a [] = Unit
IsBelow a (x ∷ xs) = (x ≤ a) × IsBelow a xs

abbrev pub IsDescending : List ℕ → Type 0
IsDescending [] = Unit
IsDescending (x ∷ xs) = IsBelow x xs × IsDescending xs

IsAbove-trans : (a b : ℕ) (xs : List ℕ) → a ≤ b → IsAbove b xs → IsAbove a xs
IsAbove-trans a b [] h k = tt
IsAbove-trans a b (x ∷ xs) h k = (omega arith, IsAbove-trans a b xs h k.1)

IsAbove-insert_sorted :
    (a b : ℕ) (xs : List ℕ) → a ≤ b → IsAbove a xs → IsAbove a (insert_sorted (λ n. n) b xs)
IsAbove-insert_sorted a b [] h k = (h, tt)
IsAbove-insert_sorted a b (x ∷ xs) h k = ground (arith, IsAbove-insert_sorted a b xs)

IsAscending-insert_sorted :
    (b : ℕ) (xs : List ℕ) → IsAscending xs → IsAscending (insert_sorted (λ n. n) b xs)
IsAscending-insert_sorted b [] h = (tt, tt)
IsAscending-insert_sorted b (x ∷ xs) h =
    ground (
      arith,
      IsAscending-insert_sorted b xs h.1,
      IsAbove-insert_sorted x b xs,
      IsAbove-trans b x xs,
    )

pub IsAscending-sorted : (xs : List ℕ) → IsAscending (sorted (λ n. n) xs)
IsAscending-sorted [] = tt
IsAscending-sorted (x ∷ xs) =
    IsAscending-insert_sorted x (sorted (λ n. n) xs) (IsAscending-sorted xs)

IsAbove-filter : (p : ℕ → Bool) (a : ℕ) (xs : List ℕ) → IsAbove a xs → IsAbove a (filter p xs)
IsAbove-filter p a [] h = tt
IsAbove-filter p a (x ∷ xs) h = ground (arith, IsAbove-filter p a xs h.1)

pub IsAscending-filter : (p : ℕ → Bool) (xs : List ℕ) → IsAscending xs → IsAscending (filter p xs)
IsAscending-filter p [] h = tt
IsAscending-filter p (x ∷ xs) h =
    ground (arith, IsAscending-filter p xs h.1, IsAbove-filter p x xs h.0)

IsBelow-append : (a b : ℕ) (xs : List ℕ) → IsBelow a xs → b ≤ a → IsBelow a (xs ++ b ∷ [])
IsBelow-append a b [] h k = (k, tt)
IsBelow-append a b (x ∷ xs) h k = (h.0, IsBelow-append a b xs h.1 k)

IsDescending-append :
    (b : ℕ) (xs : List ℕ) → IsDescending xs → IsAbove b xs → IsDescending (xs ++ b ∷ [])
IsDescending-append b [] h k = (tt, tt)
IsDescending-append b (x ∷ xs) h k =
    (IsBelow-append x b xs h.0 k.0, IsDescending-append b xs h.1 k.1)

IsAbove-append : (a b : ℕ) (xs : List ℕ) → IsAbove a xs → a ≤ b → IsAbove a (xs ++ b ∷ [])
IsAbove-append a b [] h k = (k, tt)
IsAbove-append a b (x ∷ xs) h k = (h.0, IsAbove-append a b xs h.1 k)

IsAbove-reverse : (a : ℕ) (xs : List ℕ) → IsAbove a xs → IsAbove a (reverse xs)
IsAbove-reverse a [] h = tt
IsAbove-reverse a (x ∷ xs) h = IsAbove-append a x (reverse xs) (IsAbove-reverse a xs h.1) h.0

pub IsDescending-reverse : (xs : List ℕ) → IsAscending xs → IsDescending (reverse xs)
IsDescending-reverse [] h = tt
IsDescending-reverse (x ∷ xs) h =
    IsDescending-append x (reverse xs) (IsDescending-reverse xs h.1) (IsAbove-reverse x xs h.0)

pub le_of_In-IsBelow : (a b : ℕ) (xs : List ℕ) → IsBelow a xs → In b xs → b ≤ a
le_of_In-IsBelow a b [] h k = absurd k
le_of_In-IsBelow a b (x ∷ xs) h (inl e) = omega arith
le_of_In-IsBelow a b (x ∷ xs) h (inr k) = le_of_In-IsBelow a b xs h.1 k

pub le_of_In-IsAbove : (a b : ℕ) (xs : List ℕ) → IsAbove a xs → In b xs → a ≤ b
le_of_In-IsAbove a b [] h k = absurd k
le_of_In-IsAbove a b (x ∷ xs) h (inl e) = omega arith
le_of_In-IsAbove a b (x ∷ xs) h (inr k) = le_of_In-IsAbove a b xs h.1 k
