-- ===== src/Modindex/Select/Sorting.antt =====
-- The sort of the versions, newest first: it keeps the versions, and on numeric versions its head
-- is the newest.
use doze_sdk.Prelude.{
  ◌≡◌, ◌⊎◌, inl, inr, Bool, true, false, List, [], ◌∷◌, Text, All, In, keep, Bool-cases, arith,
}
use doze_sdk.Modindex.Version.{newer}
use doze_sdk.Modindex.Version.Order.{
  IsNumericVersion, compare_versions-flip, compare_versions_trans,
}
use doze_sdk.Modindex.Select.{insert_newest, sort_newest}

In-insert_newest : (a v : Text) (ws : List Text) → In a (insert_newest v ws) → (a ≡ v) ⊎ In a ws
unfolding insert_newest
In-insert_newest a v [] i = i
In-insert_newest a v (w ∷ ws) i = ground (arith, In-insert_newest a v ws)

insert_newest-In : (a v : Text) (ws : List Text) → (a ≡ v) ⊎ In a ws → In a (insert_newest v ws)
unfolding insert_newest
insert_newest-In a v [] i = i
insert_newest-In a v (w ∷ ws) i = ground (arith, insert_newest-In a v ws)

pub In-sort_newest : (a : Text) (vs : List Text) → In a (sort_newest vs) → In a vs
unfolding sort_newest
In-sort_newest a [] i = i
In-sort_newest a (v ∷ vs) i = elim (In-insert_newest a v (sort_newest vs) i) [
  | inl e ↦ inl e
  | inr j ↦ inr (In-sort_newest a vs j)
]

pub sort_newest-In : (a : Text) (vs : List Text) → In a vs → In a (sort_newest vs)
unfolding sort_newest
sort_newest-In a [] i = i
sort_newest-In a (v ∷ vs) (inl e) = insert_newest-In a v (sort_newest vs) (inl e)
sort_newest-In a (v ∷ vs) (inr i) =
    insert_newest-In a v (sort_newest vs) (inr (sort_newest-In a vs i))

-- None of the versions is newer than `v`.
abbrev pub IsNewest : Text → List Text → Type 0
IsNewest v = All (λ w. newer w v ≡ false)

abbrev pub IsSortedNewest : List Text → Type 0
IsSortedNewest [] = Unit
IsSortedNewest (v ∷ vs) = IsNewest v vs × IsSortedNewest vs

pub newer_trans :
    (a b c : Text)
    → IsNumericVersion a
    → IsNumericVersion b
    → IsNumericVersion c
    → newer a b ≡ false
    → newer b c ≡ false
    → newer a c ≡ false
newer_trans a b c na nb nc h k = ground (arith, compare_versions_trans a b c na nb nc)

pub newer-asym : (a b : Text) → newer a b ≡ true → newer b a ≡ false
newer-asym a b h = ground (arith, compare_versions-flip a b)

IsNewest-below :
    (v w : Text) (ws : List Text)
    → IsNumericVersion v
    → IsNumericVersion w
    → All IsNumericVersion ws
    → newer w v ≡ false
    → IsNewest w ws
    → IsNewest v ws
IsNewest-below v w [] nv nw ns h k = tt
IsNewest-below v w (x ∷ ws) nv nw ns h k =
    (newer_trans x w v ns.0 nw nv k.0 h, IsNewest-below v w ws nv nw ns.1 h k.1)

IsNewest-insert_newest :
    (v w : Text) (ws : List Text)
    → newer v w ≡ false
    → IsNewest w ws
    → IsNewest w (insert_newest v ws)
unfolding insert_newest
IsNewest-insert_newest v w [] h k = (h, tt)
IsNewest-insert_newest v w (x ∷ ws) h k = ground (arith, IsNewest-insert_newest v w ws h k.1)

insert_newest-IsSortedNewest :
    (v : Text) (ws : List Text)
    → IsNumericVersion v
    → All IsNumericVersion ws
    → IsSortedNewest ws
    → IsSortedNewest (insert_newest v ws)
unfolding insert_newest
insert_newest-IsSortedNewest v [] nv ns s = (tt, tt)
insert_newest-IsSortedNewest v (w ∷ ws) nv ns s = elim (Bool-cases (newer w v)) [
  | inl later ↦ rw later (
    IsNewest-insert_newest v w ws (newer-asym w v later) s.0,
    insert_newest-IsSortedNewest v ws nv ns.1 s.1,
  )
  | inr h ↦ rw h ((h, IsNewest-below v w ws nv ns.0 ns.1 h s.0), s)
]

All-insert_newest :
    (v : Text) (ws : List Text)
    → IsNumericVersion v
    → All IsNumericVersion ws
    → All IsNumericVersion (insert_newest v ws)
unfolding insert_newest
All-insert_newest v [] nv ns = (nv, tt)
All-insert_newest v (w ∷ ws) nv ns = elim (Bool-cases (newer w v)) [
  | inl later ↦ rw later (ns.0, All-insert_newest v ws nv ns.1)
  | inr h ↦ rw h (nv, ns)
]

All-sort_newest : (vs : List Text) → All IsNumericVersion vs → All IsNumericVersion (sort_newest vs)
unfolding sort_newest
All-sort_newest [] ns = tt
All-sort_newest (v ∷ vs) ns = All-insert_newest v (sort_newest vs) ns.0 (All-sort_newest vs ns.1)

pub sort_newest-IsSortedNewest :
    (vs : List Text) → All IsNumericVersion vs → IsSortedNewest (sort_newest vs)
unfolding sort_newest
sort_newest-IsSortedNewest [] ns = tt
sort_newest-IsSortedNewest (v ∷ vs) ns =
    insert_newest-IsSortedNewest v (sort_newest vs) ns.0 (All-sort_newest vs ns.1)
      (sort_newest-IsSortedNewest vs ns.1)

IsNewest-keep :
    (v : Text) (test : Text → Bool) (ws : List Text) → IsNewest v ws → IsNewest v (keep test ws)
unfolding keep
IsNewest-keep v test [] k = tt
IsNewest-keep v test (w ∷ ws) k = ground (arith, IsNewest-keep v test ws k.1)

pub keep-IsSortedNewest :
    (test : Text → Bool) (ws : List Text) → IsSortedNewest ws → IsSortedNewest (keep test ws)
unfolding keep
keep-IsSortedNewest test [] s = tt
keep-IsSortedNewest test (w ∷ ws) s =
    ground (arith, keep-IsSortedNewest test ws s.1, IsNewest-keep w test ws s.0)
