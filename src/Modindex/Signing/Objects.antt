-- ===== src/Modindex/Signing/Objects.antt =====
-- What a JSON object of CanonicalPayload (modindex/modindex.go) says of the map it is made from.
use mathlib.Core.Option.{some-injective}
use doze_sdk.Modindex.Signing.{
  Json, Members, json_members, no_more, member, sorted_in, sort_keys, members, json_object,
  json_text,
}
use doze_sdk.Prelude.{
  Map, Option, Text, [], ◌∷◌, ◌≡◌, arith, lookup, none, some, text_eq, text_eq_iff, refl, ap,
  if◌then◌else◌, text_compare-flip, text_key, int_key, map_values, sym, ◌∙◌,
}

lookup-sorted_in :
    {V : Type 0} (j k : Text) (v : V) (m : Map Text V)
    → lookup j (sorted_in k v m) ≡ (if text_eq k j then some v else lookup j m)
unfolding lookup sorted_in
lookup-sorted_in j k v [] = refl
lookup-sorted_in j k v ((i, w) ∷ m) =
    ground
      (arith, lookup-sorted_in j k v m, text_eq_iff i j, text_eq_iff k j, text_compare-flip i k)

pub lookup-sort_keys :
    {V : Type 0} (j : Text) (m : Map Text V) → lookup j (sort_keys m) ≡ lookup j m
unfolding lookup sort_keys
lookup-sort_keys j [] = refl
lookup-sort_keys j ((k, v) ∷ m) =
    rw (lookup-sorted_in j k v (sort_keys m), lookup-sort_keys j m) refl

-- The entries of an object, and those of a map
object_entries : Members → Map Text Json
object_entries no_more = []
object_entries (member k v ms) = (k, v) ∷ object_entries ms

object_entries-members : (m : Map Text Json) → object_entries (members m) ≡ m
unfolding object_entries members
object_entries-members [] = refl
object_entries-members ((k, v) ∷ m) = ap (λ r. (k, v) ∷ r) (object_entries-members m)

-- The value of a key of an object
field_of : Text → Json → Option Json
field_of k (json_members ms) = lookup k (object_entries ms)
field_of k _ = none

field_of-json_object : (k : Text) (m : Map Text Json) → field_of k (json_object m) ≡ lookup k m
unfolding field_of json_object
field_of-json_object k m = rw (object_entries-members (sort_keys m)) (lookup-sort_keys k m)

on_some : {A B : Type 0} → (A → B) → Option A → Option B
on_some f none = none
on_some f (some a) = some (f a)

lookup-map_values :
    {V W : Type 0} (f : V → W) (k : Text) (m : Map Text V)
    → lookup k (map_values f m) ≡ on_some f (lookup k m)
unfolding lookup map_values on_some
lookup-map_values f k [] = refl
lookup-map_values f k ((j, v) ∷ m) = ground (arith, lookup-map_values f k m)

-- Two values that are both there and related, or both missing
abbrev pub Alike : {A : Type 0} → (A → A → Type 0) → Option A → Option A → Type 0
Alike R none none = Unit
Alike R (some a) (some b) = R a b
Alike R _ _ = ⊥

on_some-Alike :
    {A B : Type 0} (R : A → A → Type 0) (f : A → B) (o p : Option A)
    → ((a b : A) → f a ≡ f b → R a b)
    → on_some f o ≡ on_some f p
    → Alike R o p
unfolding on_some
on_some-Alike R f none none r h = tt
on_some-Alike R f (some a) (some b) r h = r a b (some-injective _ _ h)
on_some-Alike R f none (some b) r h = absurd (cc)
on_some-Alike R f (some a) none r h = absurd (cc)

-- Equal objects of maps: the maps are alike at every key.
pub json_object-Alike :
    {V : Type 0} (R : V → V → Type 0) (f : V → Json) (m n : Map Text V)
    → ((v w : V) → f v ≡ f w → R v w)
    → json_object (map_values f m) ≡ json_object (map_values f n)
    → (k : Text) → Alike R (lookup k m) (lookup k n)
json_object-Alike R f m n r h k = on_some-Alike R f (lookup k m) (lookup k n) r (
    sym (lookup-map_values f k m)
    ∙ (sym (field_of-json_object k (map_values f m))
        ∙ (ap (λ j. field_of k j) h
            ∙ (field_of-json_object k (map_values f n) ∙ lookup-map_values f k n))))

-- Equal objects: equal values at every key
pub json_object-lookup :
    (m n : Map Text Json) → json_object m ≡ json_object n → (k : Text) → lookup k m ≡ lookup k n
json_object-lookup m n h k =
    sym (field_of-json_object k m) ∙ (ap (λ j. field_of k j) h ∙ field_of-json_object k n)

pub json_text-injective : (s t : Text) → json_text s ≡ json_text t → s ≡ t
json_text-injective s t h = ap (λ j. elim j [ json_text x ↦ x | _ ↦ s ]) h
