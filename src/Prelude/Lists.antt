-- ===== src/Prelude/Lists.antt =====
-- Lists measured by native numbers, Boolean filters and searches, and predicates by recursion.
use Prim.Native.Nat.{ℕ, suc, ◌+◌}
use mathlib.Core.Path.{◌≡◌, refl}
use mathlib.Core.Logic.{◌⊎◌, inl, inr, ◌↔◌}
use mathlib.Core.Bool.{Bool, true, false}
use mathlib.Core.List.{List, [], ◌∷◌, ◌++◌, map}
use native.Mathlib.Omega.{arith}
use doze_sdk.Prelude.Tests.{if◌then◌else◌, Eq, ◌==◌}

module _ {ℓ} {A : Type ℓ} where
  abbrev pub length : List A → ℕ
  length [] = 0
  length (x ∷ xs) = suc (length xs)

  pub List-cases : (xs : List A) → (xs ≡ []) ⊎ ((x : A) × (rest : List A) × (xs ≡ x ∷ rest))
  List-cases [] = inl refl
  List-cases (x ∷ xs) = inr (x, xs, refl)

  pub length-append : (xs ys : List A) → length (xs ++ ys) ≡ length xs + length ys
  length-append [] ys = omega arith
  length-append (x ∷ xs) ys = omega (arith, length-append xs ys)

  abbrev pub All {κ} : (A → Type κ) → List A → Type κ
  All P [] = Unit
  All P (x ∷ xs) = P x × All P xs

  -- `for … if test { out = append(out, x) }`
  unfoldable pub keep : (A → Bool) → List A → List A
  keep test [] = []
  keep test (x ∷ xs) = let rest = keep test xs in if test x then x ∷ rest else rest

  abbrev pub all : (A → Bool) → List A → Bool
  all test [] = true
  all test (x ∷ xs) = let rest = all test xs in if test x then rest else false

  pub all→All : (test : A → Bool) (xs : List A) → all test xs ≡ true → All (λ x. test x ≡ true) xs
  all→All test [] h = tt
  all→All test (x ∷ xs) h = ground (arith, all→All test xs)

  pub All→all : (test : A → Bool) (xs : List A) → All (λ x. test x ≡ true) xs → all test xs ≡ true
  All→all test [] h = refl
  All→all test (x ∷ xs) h = ground (arith, All→all test xs h.1)

  pub All-append_iff {κ} :
      (P : A → Type κ) (xs ys : List A) → All P (xs ++ ys) ↔ (All P xs × All P ys)
  All-append_iff P [] ys = (λ h. (tt, h), λ h. h.1)
  All-append_iff P (x ∷ xs) ys = (
    (λ h. let (a, b) = (All-append_iff P xs ys).0 h.1 in ((h.0, a), b)),
    λ h. (h.0.0, (All-append_iff P xs ys).1 (h.0.1, h.1)),
  )

module _ {A : Type 0} where
  abbrev pub In : A → List A → Type 0
  In a [] = ⊥
  In a (x ∷ xs) = (a ≡ x) ⊎ In a xs

  pub All-of_In {κ} : (P : A → Type κ) (xs : List A) → ((a : A) → In a xs → P a) → All P xs
  All-of_In P [] h = tt
  All-of_In P (x ∷ xs) h = (h x (inl refl), All-of_In P xs (λ a i. h a (inr i)))

  pub All-In {κ} : (P : A → Type κ) {a : A} (xs : List A) → All P xs → In a xs → P a
  All-In P [] h i = absurd i
  All-In P (x ∷ xs) h (inl e) = rw e h.0
  All-In P (x ∷ xs) h (inr i) = All-In P xs h.1 i

  pub In-keep :
      (test : A → Bool) (a : A) (xs : List A) → In a (keep test xs) → In a xs × (test a ≡ true)
  unfolding keep
  In-keep test a [] i = absurd i
  In-keep test a (x ∷ xs) i = ground (arith, In-keep test a xs)

  pub keep-In :
      (test : A → Bool) (a : A) (xs : List A) → In a xs → test a ≡ true → In a (keep test xs)
  unfolding keep
  keep-In test a [] i h = absurd i
  keep-In test a (x ∷ xs) i h = ground (arith, keep-In test a xs)

module _ {A : Type 0} ⦃e : Eq A⦄ where
  -- slices.Contains
  unfoldable pub contains : List A → A → Bool
  contains [] wanted = false
  contains (item ∷ items) wanted =
      let later = contains items wanted in if item == wanted then true else later

  pub contains→In : (xs : List A) (a : A) → contains xs a ≡ true → In a xs
  unfolding contains
  contains→In [] a h = cc
  contains→In (x ∷ xs) a h = ground (arith, contains→In xs a, e.beq_iff x a)

  pub In→contains : (xs : List A) (a : A) → In a xs → contains xs a ≡ true
  unfolding contains
  In→contains [] a h = absurd h
  In→contains (x ∷ xs) a h = ground (arith, In→contains xs a, e.beq_iff x a)

pub map_inverse {ℓ κ} :
    {A : Type ℓ} {B : Type κ} (f : A → B) (g : B → A) (P : A → Type 0)
    → ((x : A) → P x → g (f x) ≡ x)
    → (xs : List A) → All P xs
    → map g (map f xs) ≡ xs
map_inverse f g P back [] h = refl
map_inverse f g P back (x ∷ xs) h = rw (back x h.0, map_inverse f g P back xs h.1) refl
