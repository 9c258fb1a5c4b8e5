-- ===== src/Common/Lists.antt =====
-- Lists measured by native numbers, and predicates on all or one of their elements.
use Prim.Native.Nat.{ℕ, suc, ◌+◌}
use mathlib.Core.Path.{◌≡◌, refl}
use mathlib.Core.Bool.{Bool, true, false, ◌&&◌}
use mathlib.Core.Logic.{◌⊎◌, inl, inr}
use mathlib.Core.List.{reverse_aux, List, [], ◌∷◌, ◌++◌}
use native.Mathlib.Omega.{arith}

module _ {ℓ} {A : Type ℓ} where
  abbrev pub length : List A → ℕ
  length [] = 0
  length (x ∷ xs) = suc (length xs)

  pub length-append : (xs ys : List A) → length (xs ++ ys) ≡ length xs + length ys
  length-append [] ys = omega arith
  length-append (x ∷ xs) ys = omega (arith, length-append xs ys)

  -- `all(test(x) for x in xs)`
  abbrev pub all : (A → Bool) → List A → Bool
  all test [] = true
  all test (x ∷ xs) = test x && all test xs

-- `sum(xs)` of integers
abbrev pub total : List ℕ → ℕ
total [] = 0
total (n ∷ ns) = n + total ns

-- `not xs`
abbrev pub empty : {A : Type 0} → List A → Bool
empty [] = true
empty (_ ∷ _) = false

pub empty-append : {A : Type 0} (xs ys : List A) → empty (xs ++ ys) ≡ (empty xs && empty ys)
empty-append [] ys = refl
empty-append (x ∷ xs) ys = refl

-- A predicate of every element.
abbrev pub All {ℓ κ} : {A : Type ℓ} → (A → Type κ) → List A → Type κ
All P [] = Unit
All P (x ∷ xs) = P x × All P xs

pub All-append {ℓ κ} :
    {A : Type ℓ} (P : A → Type κ) (xs ys : List A) → All P xs → All P ys → All P (xs ++ ys)
All-append P [] ys h k = k
All-append P (x ∷ xs) ys h k = (h.0, All-append P xs ys h.1 k)

-- An element of a list, with its place.
abbrev pub Has : {A : Type 0} → A → List A → Type 0
Has a [] = ⊥
Has a (x ∷ xs) = (a ≡ x) ⊎ Has a xs

pub Has-reverse_aux :
    {A : Type 0} (a : A) (xs ys : List A) → Has a (reverse_aux xs ys) → Has a xs ⊎ Has a ys
Has-reverse_aux a [] ys h = inr h
Has-reverse_aux a (x ∷ xs) ys h = elim (Has-reverse_aux a xs (x ∷ ys) h) [
  | inl early ↦ inl (inr early)
  | inr (inl here) ↦ inl (inl here)
  | inr (inr late) ↦ inr late
]

pub All-of : {A : Type 0} {P : A → Type 0} (xs : List A) → ((x : A) → Has x xs → P x) → All P xs
All-of [] each = tt
All-of (x ∷ xs) each = (each x (inl refl), All-of xs (λ y held. each y (inr held)))
