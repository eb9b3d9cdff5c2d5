-- ===== src/Plugin/Wire/Registry.antt =====
-- plugin/wireserver.go: localCancelRegistry. The random keys that Register draws are a list, the
-- model's bound on its loop.
use doze_sdk.Modindex.Version.{take}
use doze_sdk.Prelude.{
  Bool, List, Map, Option, Text, [], delete, if◌then◌else◌, insert, lookup, none, some, true, ◌∷◌,
  ◌≡◌, ◌==◌, ◌≢◌, false, refl, ◌<◌, ◌≤◌, inl, inr, all, In, length, arith, lookup-insert,
  lookup-delete, Bool-cases, Option-cases, text_eq, text_eq_iff, nat_key, text_key, Distinct, sym,
  subst, ◌⊎◌, int_key,
}

-- CancelTarget (engine/driver.go)
pub record CancelTarget : Type 0 where
  pub backend_socket : Text
  pub key : Text

abbrev pub Registry : Type 0
Registry = Map Text CancelTarget

-- The first four bytes of a key, or-ed, are 0.
unfoldable pub no_head : Text → Bool
no_head key = all (λ byte. byte == 0) (take 4 key)

-- Register: the loop tries one draw after another, and is none where they run out.
unfoldable pub register : CancelTarget → List Text → Registry → Option (Text × Registry)
register t [] r = none
register t (key ∷ draws) r =
    let again = register t draws r in
    if no_head key
    then again
    else elim (lookup key r) [ some target ↦ again | none ↦ some (key, insert key t r) ]

-- Unregister
abbrev pub unregister : Text → Registry → Registry
unregister key r = delete key r

-- Lookup
abbrev pub look_up : Text → Registry → Option CancelTarget
look_up key r = lookup key r

-- The draws that Register does not skip for their head
unfoldable pub with_head : List Text → List Text
with_head [] = []
with_head (key ∷ draws) = let rest = with_head draws in if no_head key then rest else key ∷ rest

length-delete_le : (k : Text) (r : Registry) → length (delete k r) ≤ length r
unfolding delete
length-delete_le k [] = omega arith
length-delete_le k ((j, w) ∷ r) = ground (arith, length-delete_le k r)

length-delete :
    (k : Text) (r : Registry) (t : CancelTarget)
    → lookup k r ≡ some t
    → length (delete k r) < length r
unfolding delete lookup
length-delete k [] t h = absurd (cc)
length-delete k ((j, w) ∷ r) t h = elim (Bool-cases (text_eq j k)) [
  | inl same ↦ rw same (omega (arith, length-delete_le k r))
  | inr other ↦
      let rest : length (delete k r) < length r = length-delete k r t (ground arith) in
      rw other (omega (arith, rest))
]

still_free :
    (key k : Text) (r : Registry) → key ≢ k → lookup k (delete key r) ≡ none → lookup k r ≡ none
still_free key k r ne free = ground (arith, lookup-delete key k r, text_eq_iff key k)

-- More distinct keys than the registry holds: one of them is free.
free_draw :
    (draws : List Text) (r : Registry)
    → Distinct draws
    → length r < length (with_head draws)
    → (k : Text) × (In k draws × ((no_head k ≡ false) × (lookup k r ≡ none)))
unfolding with_head
free_draw [] r d h = absurd (omega arith)
free_draw (key ∷ draws) r d h = elim (Bool-cases (no_head key)) [
  | inl blank ↦ let (k, (i, found)) = free_draw draws r d.1 (ground arith) in (k, (inr i, found))
  | inr head ↦ elim (Option-cases (lookup key r)) [
    | inl free ↦ (key, (inl refl, (head, free)))
    | inr (t, held) ↦
        let shorter : length (delete key r) < length (with_head draws) =
          ground (arith, length-delete key r t held) in
        let (k, (i, (has_head, free))) = free_draw draws (delete key r) d.1 shorter in
        (
          k,
          (
            inr i,
            (has_head, still_free key k r (λ e. d.0 (subst (λ x. In x draws) (sym e) i)) free),
          ),
        )
  ]
]

abbrev pub Registered : CancelTarget → List Text → Registry → Text → Registry → Type 0
Registered t draws r key later =
    In key draws
    × ((no_head key ≡ false)
        × ((look_up key r ≡ none)
            × ((j : Text) → look_up j later ≡ (if text_eq key j then some t else look_up j r))))

In-tail :
    (k key : Text) (draws : List Text)
    → no_head k ≡ false
    → In k (key ∷ draws)
    → ((no_head key ≡ true) ⊎ (key ≢ k))
    → In k draws
In-tail k key draws head (inr i) other = i
In-tail k key draws head (inl e) (inl blank) = absurd (cc)
In-tail k key draws head (inl e) (inr ne) = absurd (ne (sym e))

register-Registered :
    (t : CancelTarget) (draws : List Text) (r : Registry) (k : Text)
    → In k draws
    → no_head k ≡ false
    → look_up k r ≡ none
    → (key : Text) × (later : Registry) × ((register t draws r ≡ some (key, later))
        × Registered t draws r key later)
unfolding register
register-Registered t [] r k i head free = absurd i
register-Registered t (key ∷ draws) r k i head free = elim (Bool-cases (no_head key)) [
  | inl blank ↦
      let (new, later, (e, (j, rest))) =
        register-Registered t draws r k (In-tail k key draws head i (inl blank)) head free in
      (new, later, (rw blank e, (inr j, rest)))
  | inr has_head ↦ elim (Option-cases (lookup key r)) [
    | inl fresh ↦ (
      key,
      insert key t r,
      (
        rw (has_head, fresh, register) refl,
        (inl refl, (has_head, (fresh, λ j. lookup-insert key j t r))),
      ),
    )
    | inr (other, held) ↦
        let ne : key ≢ k = λ same. absurd (cc) in
        let (new, later, (e, (j, rest))) =
          register-Registered t draws r k (In-tail k key draws head i (inr ne)) head free in
        (new, later, (rw (has_head, held, register) e, (inr j, rest)))
  ]
]

-- If the draws are distinct and more of them have a nonzero head than the registry has keys, Register
-- ends with one of them: a key with a nonzero head that was not registered, where the target is found
-- from then on, while every other key keeps what it had.
pub register_ends :
    (t : CancelTarget) (draws : List Text) (r : Registry)
    → Distinct draws
    → length r < length (with_head draws)
    → (key : Text) × (later : Registry) × ((register t draws r ≡ some (key, later))
        × Registered t draws r key later)
register_ends t draws r d more =
    let (k, (i, (head, free))) = free_draw draws r d more in
    register-Registered t draws r k i head free
