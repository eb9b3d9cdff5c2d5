-- ===== src/Prelude/Fresh.antt =====
-- Lists without repetition, and the loops that find a repetition by what they have seen.
use mathlib.Core.Path.{◌≡◌, refl}
use mathlib.Core.Logic.{◌↔◌, inl, inr}
use mathlib.Core.Bool.{Bool, true, false}
use mathlib.Core.List.{List, [], ◌∷◌}
use native.Mathlib.Omega.{arith}
use doze_sdk.Prelude.Tests.{if◌then◌else◌, Eq, ◌==◌}
use doze_sdk.Prelude.Lists.{In, All}

module _ {A : Type 0} where
  abbrev pub Distinct : List A → Type 0
  Distinct [] = Unit
  Distinct (x ∷ xs) = ¬ In x xs × Distinct xs

module _ {A : Type 0} ⦃e : Eq A⦄ where
  -- What is seen once `x` has been met.
  abbrev pub also : A → (A → Bool) → A → Bool
  also x seen y = if x == y then true else seen y

  -- No element has been seen before it, neither at the start nor in the list.
  abbrev pub FreshFrom : (A → Bool) → List A → Type 0
  FreshFrom seen [] = Unit
  FreshFrom seen (x ∷ xs) = (seen x ≡ false) × FreshFrom (also x seen) xs

  also-All :
      (x : A) (seen : A → Bool) (xs : List A)
      → All (λ y. also x seen y ≡ false) xs
      → ¬ In x xs × All (λ y. seen y ≡ false) xs
  also-All x seen [] h = (λ i. i, tt)
  also-All x seen (y ∷ xs) h =
      let (out, rest) = also-All x seen xs h.1 in
      (
        λ i. elim i [ inl same ↦ ground (arith, e.beq_iff x y, h.0) | inr later ↦ out later ],
        (ground (arith, h.0), rest),
      )

  All-also :
      (x : A) (seen : A → Bool) (xs : List A)
      → ¬ In x xs
      → All (λ y. seen y ≡ false) xs
      → All (λ y. also x seen y ≡ false) xs
  All-also x seen [] out h = tt
  All-also x seen (y ∷ xs) out h = (
    ground (arith, e.beq_iff x y, λ (p : x ≡ y). out (inl p)),
    All-also x seen xs (λ i. out (inr i)) h.1,
  )

  -- A list is fresh exactly when it repeats nothing and nothing of it was seen at the start.
  pub FreshFrom-Distinct :
      (seen : A → Bool) (xs : List A)
      → FreshFrom seen xs ↔ (Distinct xs × All (λ y. seen y ≡ false) xs)
  FreshFrom-Distinct seen [] = (λ h. (tt, tt), λ h. tt)
  FreshFrom-Distinct seen (x ∷ xs) = (
    (λ h.
        let (distinct, unseen) = (FreshFrom-Distinct (also x seen) xs).0 h.1 in
        let (out, rest) = also-All x seen xs unseen in ((out, distinct), (h.0, rest))),
    λ h. (h.1.0, (FreshFrom-Distinct (also x seen) xs).1 (h.0.1, All-also x seen xs h.0.0 h.1.1)),
  )

  pub All-unseen : (xs : List A) → All (λ y. ◌≡◌ {A = Bool} false false) xs
  All-unseen [] = tt
  All-unseen (x ∷ xs) = (refl, All-unseen xs)
