-- ===== src/Binaries/Lock/Listing.antt =====
-- `Resolved` and `Specs` of binaries/lock.go. A loop over a map goes in the order of the model's list,
-- where Go's is any order.
use doze_sdk.Binaries.Lock.{Lock, get, specs_at}
use doze_sdk.Engine.Types.{Pin}
use doze_sdk.Modindex.Signing.{sort_keys}
use doze_sdk.Modindex.Signing.Objects.{lookup-sort_keys}
use doze_sdk.Prelude.{
  Bool-cases, In, List, Map, Option, Text, [], arith, if◌then◌else◌, inl, inr, lookup, lookup-In,
  map, none, ok, some, text_eq, text_eq_iff, text_key, ◌∷◌, ◌≡◌, ◌∙◌, ap, ◌≢◌, int_key,
}

-- The loop of Resolved
unfoldable resolved_of : Map Text (Option Pin) → List Text
resolved_of [] = []
resolved_of ((spec, none) ∷ m) = resolved_of m
resolved_of ((spec, some p) ∷ m) =
    let rest = resolved_of m in if text_eq p.resolved [] then rest else p.resolved ∷ rest

-- Resolved
unfoldable resolved : Lock → Text → List Text
resolved l eng = resolved_of (specs_at eng l)

-- Specs
unfoldable specs : Lock → Text → List Text
specs l eng = map (λ x. x.0) (sort_keys (specs_at eng l))

held :
    (l : Lock) (eng spec : Text) (p : Pin)
    → get (some l) eng spec ≡ ok (some p)
    → lookup spec (specs_at eng l) ≡ some (some p)
unfolding get
held l eng spec p h = ground (arith, h)

In-keys : {V : Type 0} (k : Text) (v : V) (m : Map Text V) → In (k, v) m → In k (map (λ x. x.0) m)
In-keys k v [] i = absurd i
In-keys k v (x ∷ m) (inl same) = inl (ap (λ y. y.0) same)
In-keys k v (x ∷ m) (inr i) = inr (In-keys k v m i)

In-resolved_of :
    (spec : Text) (p : Pin) (m : Map Text (Option Pin))
    → p.resolved ≢ []
    → In (spec, some p) m
    → In p.resolved (resolved_of m)
unfolding resolved_of
In-resolved_of spec p [] full i = absurd i
In-resolved_of spec p ((k, none) ∷ m) full (inl same) = absurd (cc)
In-resolved_of spec p ((k, none) ∷ m) full (inr i) = In-resolved_of spec p m full i
In-resolved_of spec p ((k, some q) ∷ m) full (inl same) =
    let is : p ≡ q = cc same in
    let same_text = ap (λ (x : Pin). x.resolved) is in
    elim (Bool-cases (text_eq q.resolved [])) [
      | inl bare ↦ absurd (full (same_text ∙ (text_eq_iff q.resolved []).0 bare))
      | inr some_text ↦ rw some_text (inl same_text)
    ]
In-resolved_of spec p ((k, some q) ∷ m) full (inr i) = elim (Bool-cases (text_eq q.resolved [])) [
  | inl bare ↦ rw bare (In-resolved_of spec p m full i)
  | inr some_text ↦ rw some_text (inr (In-resolved_of spec p m full i))
]

-- Of an engine and a spec for which Get gives a pin: Specs lists the spec, and Resolved the version
-- of the pin, unless that is empty.
get-IsListed :
    (l : Lock) (eng spec : Text) (p : Pin)
    → get (some l) eng spec ≡ ok (some p)
    → In spec (specs l eng) × (p.resolved ≢ [] → In p.resolved (resolved l eng))
unfolding specs resolved
get-IsListed l eng spec p h =
    let there = held l eng spec p h in
    (
      In-keys spec (some p) (sort_keys (specs_at eng l))
          (lookup-In spec (some p) _ (lookup-sort_keys spec (specs_at eng l) ∙ there)),
      λ full. In-resolved_of spec p (specs_at eng l) full (lookup-In spec (some p) _ there),
    )
