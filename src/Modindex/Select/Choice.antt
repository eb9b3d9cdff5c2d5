-- ===== src/Modindex/Select/Choice.antt =====
-- What `Select` returns: a compatible release, the channel head if it is one, else the newest.
use doze_sdk.Prelude.{
  ◌≡◌, ◌↔◌, ◌⊎◌, inl, inr, refl, sym, ap, subst, true, Option, none, some, List, [], ◌∷◌, Text,
  text_eq_iff, text_key, Map, lookup, lookup-In, In-lookup, UniqueKeys, ℤ, eqb_ℤ, eqb_ℤ_iff, ok,
  err, All, In, keep, In-keep, keep-In, all, contains, contains→In, In→contains, Bool-cases, arith,
}
use doze_sdk.Modindex.Index.{Index, Release}
use doze_sdk.Modindex.Select.{
  gate, covers, supports, release_at, speaking, sort_newest, channel_head, or_stable, select,
  select_sorted, select_from, pick, SelectError, engine_error,
}
use doze_sdk.Modindex.Select.Sorting.{In-sort_newest, sort_newest-In}

-- A release without engines is not gated; another lists every major that is asked for and not empty.
abbrev pub IsSupported : Release → List Text → Type 0
IsSupported r majors = (r.engines ≡ []) ⊎ All (λ m. (m ≡ []) ⊎ In m r.engines) majors

all-covers :
    (es majors : List Text) → (all (covers es) majors ≡ true) ↔ All (λ m. (m ≡ []) ⊎ In m es) majors
all-covers es [] = ground arith
all-covers es (m ∷ ms) = (
  λ h. (ground (arith, text_eq_iff m [], contains→In es m), (all-covers es ms).0 (ground arith)),
  λ h. ground (arith, (all-covers es ms).1 h.1, text_eq_iff m [], In→contains es m, h.0),
)

gate-IsSupported :
    (es majors : List Text)
    → (gate es majors ≡ true) ↔ ((es ≡ []) ⊎ All (λ m. (m ≡ []) ⊎ In m es) majors)
unfolding gate
gate-IsSupported [] majors = (λ h. inl refl, λ h. refl)
gate-IsSupported (e ∷ es) majors = (
  λ h. inr ((all-covers (e ∷ es) majors).0 h),
  elim [ inl h ↦ cc | inr h ↦ (all-covers (e ∷ es) majors).1 h ],
)

-- `Supports` says exactly whether a release is ungated or lists every major that is asked for.
pub supports-IsSupported :
    (r : Release) (majors : List Text) → (supports r majors ≡ true) ↔ IsSupported r majors
unfolding supports
supports-IsSupported r majors = gate-IsSupported r.engines majors

-- The release `v` of the index can run on the host and covers the majors.
abbrev pub IsCompatible : Index → ℤ → List Text → Text → Release → Type 0
IsCompatible idx host majors v r =
    (lookup v idx.releases ≡ some r) × (r.protocol ≡ host) × IsSupported r majors

pub speaking-In :
    (host : ℤ) (m : Map Text Release) (v : Text)
    → In v (speaking host m)
    → (r : Release) × In (v, r) m × (r.protocol ≡ host)
unfolding speaking keep
speaking-In host [] v i = absurd i
speaking-In host ((w, s) ∷ m) v i = elim (Bool-cases (eqb_ℤ s.protocol host)) [
  | inl same ↦ (elim (rw same at i) [
    | inl e ↦ (s, inl (ap (λ x. (x, s)) e), (eqb_ℤ_iff s.protocol host).0 same)
    | inr j ↦ let (r, k, p) = speaking-In host m v j in (r, inr k, p)
  ])
  | inr other ↦ let (r, k, p) = speaking-In host m v (rw other at i) in (r, inr k, p)
]

pub In-speaking :
    (host : ℤ) (m : Map Text Release) (v : Text) (r : Release)
    → In (v, r) m
    → r.protocol ≡ host
    → In v (speaking host m)
unfolding speaking keep
In-speaking host [] v r i p = absurd i
In-speaking host ((w, s) ∷ m) v r i p =
    ground (arith, In-speaking host m v r, eqb_ℤ_iff s.protocol host)

abbrev pub candidates : Index → ℤ → List Text → List Text
candidates idx host majors =
    keep (λ v. supports (release_at idx v) majors) (sort_newest (speaking host idx.releases))

select_sorted_outcome :
    (idx : Index) (host : ℤ) (majors : List Text) (head : Option Text) (sorted : List Text)
    (first : Text) (rest : List Text)
    → keep (λ v. supports (release_at idx v) majors) sorted ≡ first ∷ rest
    → select_sorted idx host majors head sorted ≡ ok (pick idx head first rest)
unfolding select_sorted keep
select_sorted_outcome idx host majors head [] first rest e = cc
select_sorted_outcome idx host majors head (latest ∷ older) first rest e = rw e refl

select_sorted_none :
    (idx : Index) (host : ℤ) (majors : List Text) (head : Option Text) (sorted : List Text)
    → keep (λ v. supports (release_at idx v) majors) sorted ≡ []
    → (e : SelectError) × (select_sorted idx host majors head sorted ≡ err e)
unfolding select_sorted keep
select_sorted_none idx host majors head [] e = (_, refl)
select_sorted_none idx host majors head (latest ∷ older) e =
    (engine_error idx.name majors latest (release_at idx latest).engines, rw e refl)

module _ (idx : Index) (host : ℤ) (majors : List Text) (head : Option Text) where
  select_from_first :
      (m : Map Text Release) (first : Text) (rest : List Text)
      → keep (λ v. supports (release_at idx v) majors) (sort_newest (speaking host m))
        ≡ first ∷ rest
      → select_from idx host majors head m ≡ ok (pick idx head first rest)
  unfolding select_from
  select_from_first [] first rest e = unfold speaking sort_newest keep in cc
  select_from_first (x ∷ m) first rest e = select_sorted_outcome idx host majors head _ first rest e

  select_from_none :
      (m : Map Text Release)
      → keep (λ v. supports (release_at idx v) majors) (sort_newest (speaking host m)) ≡ []
      → (e : SelectError) × (select_from idx host majors head m ≡ err e)
  unfolding select_from
  select_from_none [] e = (_, refl)
  select_from_none (x ∷ m) e = select_sorted_none idx host majors head _ e

pub release_at-lookup :
    (idx : Index) (v : Text) (r : Release) → lookup v idx.releases ≡ some r → release_at idx v ≡ r
release_at-lookup idx v r h = rw (h, release_at) refl

-- The first candidate is the newest, and the head is returned if it is a candidate.
pub pick_found :
    (idx : Index) (head : Option Text) (first : Text) (rest : List Text)
    → (pick idx head first rest).1 ≡ release_at idx (pick idx head first rest).0
unfolding pick
pick_found idx none first rest = refl
pick_found idx (some v) first rest = ground arith

pub pick_head :
    (idx : Index) (v first : Text) (rest : List Text)
    → In v (first ∷ rest)
    → pick idx (some v) first rest ≡ (v, release_at idx v)
unfolding pick
pick_head idx v first rest i = rw (In→contains (first ∷ rest) v i) refl

pub pick-In :
    (idx : Index) (head : Option Text) (first : Text) (rest : List Text)
    → In (pick idx head first rest).0 (first ∷ rest)
unfolding pick
pick-In idx none first rest = inl refl
pick-In idx (some v) first rest = elim (Bool-cases (contains (first ∷ rest) v)) [
  | inl h ↦
      let i = contains→In (first ∷ rest) v h in
      subst (λ x. In x (first ∷ rest))
        (sym (ap (λ (x : Text × Release). x.0) (pick_head idx v first rest i))) i
  | inr h ↦ rw h (inl refl)
]

pub pick_not_head :
    (idx : Index) (head : Option Text) (first : Text) (rest : List Text)
    → ((v : Text) → head ≡ some v → ¬ In v (first ∷ rest))
    → (pick idx head first rest).0 ≡ first
unfolding pick
pick_not_head idx none first rest h = refl
pick_not_head idx (some v) first rest h = elim (Bool-cases (contains (first ∷ rest) v)) [
  | inl k ↦ absurd (h v refl (contains→In (first ∷ rest) v k))
  | inr k ↦ rw k refl
]

module _ (idx : Index) (host : ℤ) (majors : List Text) (unique : UniqueKeys idx.releases) where
  pub candidate-IsCompatible :
      (v : Text)
      → In v (candidates idx host majors)
      → IsCompatible idx host majors v (release_at idx v)
  candidate-IsCompatible v i =
      let (j, covered) = In-keep (λ w. supports (release_at idx w) majors) v _ i in
      let (r, k, same) = speaking-In host idx.releases v (In-sort_newest v _ j) in
      let found : lookup v idx.releases ≡ some r = In-lookup v r idx.releases unique k in
      let at : release_at idx v ≡ r = release_at-lookup idx v r found in
      (rw at found, rw at same, (supports-IsSupported _ majors).0 covered)

  pub compatible-candidate :
      (v : Text) (r : Release)
      → IsCompatible idx host majors v r
      → In v (candidates idx host majors)
  compatible-candidate v r (found, same, covered) =
      let at : release_at idx v ≡ r = release_at-lookup idx v r found in
      keep-In (λ w. supports (release_at idx w) majors) v _
        (sort_newest-In v _
          (In-speaking host idx.releases v r (lookup-In v r idx.releases found) same))
        (rw at ((supports-IsSupported r majors).1 covered))

  pub select_first :
      (channel first : Text) (rest : List Text)
      → candidates idx host majors ≡ first ∷ rest
      → select idx host majors channel
        ≡ ok (pick idx (channel_head idx (or_stable channel)) first rest)
  unfolding select
  select_first channel first rest e = select_from_first idx host majors _ idx.releases first rest e

  pub select_none :
      (channel : Text)
      → candidates idx host majors ≡ []
      → (e : SelectError) × (select idx host majors channel ≡ err e)
  unfolding select
  select_none channel e = select_from_none idx host majors _ idx.releases e
