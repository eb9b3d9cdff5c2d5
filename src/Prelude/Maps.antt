-- ===== src/Prelude/Maps.antt =====
-- Go maps as association lists. A walk over a map takes the entries in the list's order, so a
-- theorem for every list is one for every iteration order.
use mathlib.Core.Path.{◌≡◌, refl, subst}
use mathlib.Core.Logic.{◌≢◌, inl, inr, ◌↔◌}
use mathlib.Core.Bool.{Bool, true, false}
use mathlib.Core.Option.{Option, none, some}
use mathlib.Core.List.{List, [], ◌∷◌}
use native.Mathlib.Omega.{arith}
use doze_sdk.Prelude.Tests.{if◌then◌else◌, Eq, ◌==◌, Bool-cases}
use doze_sdk.Prelude.Lists.{In, All, All-In, keep, In-keep, keep-In}

abbrev pub Map {ℓ κ} : Type ℓ → Type κ → Type (ℓ ⊔ κ)
Map K V = List (K × V)

module _ {ℓ κ} {K : Type ℓ} {V : Type κ} ⦃e : Eq K⦄ where
  -- m[k] = v
  unfoldable pub insert : K → V → Map K V → Map K V
  insert k v [] = (k, v) ∷ []
  insert k v ((at, old) ∷ rest) =
      let longer = insert k v rest in if at == k then (at, v) ∷ rest else (at, old) ∷ longer

  -- v, ok := m[k]
  unfoldable pub lookup : K → Map K V → Option V
  lookup k [] = none
  lookup k ((at, found) ∷ rest) = let later = lookup k rest in if at == k then some found else later

  -- delete(m, k)
  unfoldable pub delete : K → Map K V → Map K V
  delete k [] = []
  delete k ((j, w) ∷ m) = let rest = delete k m in if j == k then rest else (j, w) ∷ rest

  -- A write is read back at its key, and every other key keeps its value.
  pub lookup-insert :
      (written read : K) (v : V) (m : Map K V)
      → lookup read (insert written v m) ≡ (if written == read then some v else lookup read m)
  unfolding insert lookup
  lookup-insert written read v [] = refl
  lookup-insert written read v ((at, old) ∷ rest) = ground (
    arith,
    lookup-insert written read v rest,
    e.beq_iff at written,
    e.beq_iff at read,
    e.beq_iff written read,
  )

  pub lookup-insert_self : (k : K) (v : V) (m : Map K V) → lookup k (insert k v m) ≡ some v
  lookup-insert_self k v m = ground (arith, lookup-insert k k v m, e.beq_iff k k)

  pub lookup-insert_ne :
      (k j : K) (v : V) (m : Map K V) → k ≢ j → lookup j (insert k v m) ≡ lookup j m
  lookup-insert_ne k j v m h = ground (arith, lookup-insert k j v m, e.beq_iff k j)

  pub lookup-delete :
      (k j : K) (m : Map K V) → lookup j (delete k m) ≡ (if k == j then none else lookup j m)
  unfolding lookup delete
  lookup-delete k j [] = ground arith
  lookup-delete k j ((i, w) ∷ m) =
      ground (arith, e.beq_iff k j, e.beq_iff i k, e.beq_iff i j, lookup-delete k j m)

module _ {K V : Type 0} ⦃e : Eq K⦄ where
  pub lookup-In : (k : K) (v : V) (m : Map K V) → lookup k m ≡ some v → In (k, v) m
  unfolding lookup
  lookup-In k v [] h = cc
  lookup-In k v ((j, w) ∷ m) h = ground (arith, lookup-In k v m, e.beq_iff j k)

  -- A Go map holds a key once.
  abbrev pub UniqueKeys : Map K V → Type 0
  UniqueKeys [] = Unit
  UniqueKeys ((k, v) ∷ m) = All (λ (x : K × V). x.0 ≢ k) m × UniqueKeys m

  pub In-lookup : (k : K) (v : V) (m : Map K V) → UniqueKeys m → In (k, v) m → lookup k m ≡ some v
  unfolding lookup
  In-lookup k v [] u i = absurd i
  In-lookup k v ((j, w) ∷ m) u (inl i) = ground (arith, e.beq_iff j k)
  In-lookup k v ((j, w) ∷ m) u (inr i) =
      ground (arith, e.beq_iff j k, All-In (λ (x : K × V). x.0 ≢ j) m u.0 i, In-lookup k v m u.1 i)

  fresh-insert :
      (j k : K) (v : V) (m : Map K V)
      → k ≢ j
      → All (λ (x : K × V). x.0 ≢ j) m
      → All (λ (x : K × V). x.0 ≢ j) (insert k v m)
  unfolding insert
  fresh-insert j k v [] h a = (h, tt)
  fresh-insert j k v ((i, w) ∷ m) h a = ground (arith, fresh-insert j k v m h a.1)

  pub insert-UniqueKeys : (k : K) (v : V) (m : Map K V) → UniqueKeys m → UniqueKeys (insert k v m)
  unfolding insert
  insert-UniqueKeys k v [] u = (tt, tt)
  insert-UniqueKeys k v ((j, w) ∷ m) u = elim (Bool-cases (e.beq j k)) [
    | inl same ↦ rw same u
    | inr other ↦
        rw other (
          fresh-insert j k v m (λ p. ground (arith, e.beq_iff j k)) u.0,
          insert-UniqueKeys k v m u.1,
        )
  ]

  fresh-delete :
      (j k : K) (m : Map K V)
      → All (λ (x : K × V). x.0 ≢ j) m
      → All (λ (x : K × V). x.0 ≢ j) (delete k m)
  unfolding delete
  fresh-delete j k [] a = tt
  fresh-delete j k ((i, w) ∷ m) a = ground (arith, fresh-delete j k m a.1)

  pub delete-UniqueKeys : (k : K) (m : Map K V) → UniqueKeys m → UniqueKeys (delete k m)
  unfolding delete
  delete-UniqueKeys k [] u = tt
  delete-UniqueKeys k ((j, w) ∷ m) u =
      ground (arith, delete-UniqueKeys k m u.1, fresh-delete j k m u.0)

  fresh-keep :
      (j : K) (test : K × V → Bool) (m : Map K V)
      → All (λ (x : K × V). x.0 ≢ j) m
      → All (λ (x : K × V). x.0 ≢ j) (keep test m)
  unfolding keep
  fresh-keep j test [] a = tt
  fresh-keep j test (x ∷ m) a = ground (arith, fresh-keep j test m a.1)

  pub keep-UniqueKeys :
      (test : K × V → Bool) (m : Map K V) → UniqueKeys m → UniqueKeys (keep test m)
  unfolding keep
  keep-UniqueKeys test [] u = tt
  keep-UniqueKeys test ((j, w) ∷ m) u =
      ground (arith, keep-UniqueKeys test m u.1, fresh-keep j test m u.0)

  -- A filtered map holds the entries that pass the test.
  pub lookup-keep :
      (k : K) (v : V) (test : K × V → Bool) (m : Map K V)
      → UniqueKeys m
      → (lookup k (keep test m) ≡ some v) ↔ ((lookup k m ≡ some v) × (test (k, v) ≡ true))
  lookup-keep k v test m u = (
    (λ h.
        let (i, passes) = In-keep test (k, v) m (lookup-In k v _ h) in
        (In-lookup k v m u i, passes)),
    λ h.
        In-lookup k v _ (keep-UniqueKeys test m u)
          (keep-In test (k, v) m (lookup-In k v m h.0) h.1),
  )

  -- What holds of every value of a map holds after a removal, and after a write of such a value.
  pub delete_keeps :
      (P : V → Type 0) (k : K) (m : Map K V)
      → ((j : K) (v : V) → lookup j m ≡ some v → P v)
      → (j : K) (v : V) → lookup j (delete k m) ≡ some v
      → P v
  delete_keeps P k m each j v at = each j v (ground (arith, lookup-delete k j m))

  pub insert_keeps :
      (P : V → Type 0) (k : K) (x : V) (m : Map K V)
      → P x
      → ((j : K) (v : V) → lookup j m ≡ some v → P v)
      → (j : K) (v : V) → lookup j (insert k x m) ≡ some v
      → P v
  insert_keeps P k x m new each j v at = elim (Bool-cases (e.beq k j)) [
    | inl same ↦ let here : x ≡ v = ground (arith, lookup-insert k j x m) in subst P here new
    | inr ne ↦ each j v (ground (arith, lookup-insert k j x m))
  ]

  -- The test that a map holds each key once.
  unfoldable pub unique_keys : Map K V → Bool
  unfolding lookup
  unique_keys [] = true
  unique_keys ((k, v) ∷ m) =
      let rest = unique_keys m in elim (lookup k m) [ none ↦ rest | some w ↦ false ]

  pub lookup-none : (k : K) (m : Map K V) → lookup k m ≡ none → All (λ (x : K × V). x.0 ≢ k) m
  unfolding lookup
  lookup-none k [] h = tt
  lookup-none k ((j, w) ∷ m) h = ground (arith, lookup-none k m, e.beq_iff j k)

  pub unique_keys→UniqueKeys : (m : Map K V) → unique_keys m ≡ true → UniqueKeys m
  unfolding unique_keys
  unique_keys→UniqueKeys [] h = tt
  unique_keys→UniqueKeys ((k, v) ∷ m) h = ground (arith, unique_keys→UniqueKeys m, lookup-none k m)

-- A loop that writes f(v) at each key of a new map.
unfoldable pub map_values {ℓ κ μ} :
    {K : Type ℓ} {V : Type κ} {W : Type μ} → (V → W) → Map K V → Map K W
map_values f [] = []
map_values f ((k, v) ∷ m) = (k, f v) ∷ map_values f m

pub map_values_inverse {ℓ κ μ} :
    {K : Type ℓ} {V : Type κ} {W : Type μ} (f : V → W) (g : W → V)
    → ((v : V) → g (f v) ≡ v)
    → (m : Map K V) → map_values g (map_values f m) ≡ m
unfolding map_values
map_values_inverse f g back [] = refl
map_values_inverse f g back ((k, v) ∷ m) = rw (back v, map_values_inverse f g back m) refl
