-- ===== src/Engine/Route/Hosts.antt =====
-- Routes as texts and as shapes, and the names that `RouteHost` gives.
use doze_sdk.Prelude.{
  Text, ◌≡◌, true, all, false, ok, ◌∷◌, [], arith, none, text_eq, Option-cases, text_eq_iff, ◌++◌,
  refl, ap, inl, inr, Result-cases, codes, some, ◌⊎◌, subst, ◌↔◌,
}
use doze_sdk.Strings.{cut_last, contains_byte}
use doze_sdk.Strings.Last.{cut_last-append, cut_last_sound, contains_byte-append}
use doze_sdk.Engine.Route.{
  Route, self, child, sibling, parse_route, route_host, is_label, label_chars, is_label_char,
  at_sign, name_of,
}

-- A route's shape in the words of the code.
abbrev pub print_route : Route → Text
print_route self = at_sign ∷ []
print_route (child label) = label
print_route (sibling prefix) = prefix ++ at_sign ∷ []

abbrev pub IsRoute : Route → Type 0
IsRoute self = Unit
IsRoute (child label) = is_label label ≡ true
IsRoute (sibling prefix) = label_chars prefix ≡ true

all-no_at : (s : Text) → all is_label_char s ≡ true → contains_byte at_sign s ≡ false
unfolding contains_byte
all-no_at [] h = refl
all-no_at (c ∷ s) h = ground (arith, all-no_at s)

label_chars-no_at : (s : Text) → label_chars s ≡ true → contains_byte at_sign s ≡ false
unfolding label_chars
label_chars-no_at [] h = cc
label_chars-no_at (c ∷ s) h = all-no_at (c ∷ s) h

is_label-label_chars : (s : Text) → is_label s ≡ true → label_chars s ≡ true
unfolding is_label
is_label-label_chars [] h = cc
is_label-label_chars (c ∷ s) h = ground arith

no_at-cut_last : (s : Text) → contains_byte at_sign s ≡ false → cut_last at_sign s ≡ none
no_at-cut_last s h = elim (Option-cases (cut_last at_sign s)) [
  | inl none_left ↦ none_left
  | inr (p, found) ↦ cc (
    h,
    ap (contains_byte at_sign) (cut_last_sound at_sign s p found),
    contains_byte-append at_sign p,
  )
]

one_at :
    (contains_byte at_sign (at_sign ∷ []) ≡ true)
    × (cut_last at_sign (at_sign ∷ []) ≡ some [])
    × (label_chars [] ≡ false)
unfolding contains_byte cut_last label_chars
one_at = (refl, refl, refl)

-- A route that is written from its shape is read back: the three shapes do not overlap.
parse_route-print_route : (r : Route) → IsRoute r → parse_route (print_route r) ≡ ok r
unfolding parse_route
parse_route-print_route self h = unfold text_eq in refl
parse_route-print_route (child label) h =
    let none_at = label_chars-no_at label (is_label-label_chars label h) in
    ground
      (arith, none_at, no_at-cut_last label none_at, text_eq_iff label (at_sign ∷ []), h, one_at)
parse_route-print_route (sibling prefix) h = ground (
  arith,
  cut_last-append at_sign prefix,
  text_eq_iff (prefix ++ at_sign ∷ []) (at_sign ∷ []),
  one_at,
)

-- A text that is read as a route has the shape that is returned.
print_route-parse_route :
    (route : Text) (r : Route) → parse_route route ≡ ok r → (print_route r ≡ route) × IsRoute r
unfolding parse_route
print_route-parse_route route self h = ground (arith, text_eq_iff route (at_sign ∷ []))
print_route-parse_route route (child label) h = ground arith
print_route-parse_route route (sibling prefix) h =
    ground (arith, cut_last_sound at_sign route prefix)

-- A text is read as a route exactly if it is how that route is written, and its label or prefix may
-- stand in a route.
pub parse_route_iff :
    (route : Text) (r : Route) → (parse_route route ≡ ok r) ↔ ((print_route r ≡ route) × IsRoute r)
parse_route_iff route r = (
  print_route-parse_route route r,
  λ h. subst (λ t. parse_route t ≡ ok r) h.0 (parse_route-print_route r h.1),
)

-- The instance's own names: its host, a child of it under one label, its host behind a prefix of
-- letters, digits and hyphens.
abbrev pub IsOwn : Text → Text → Type 0
IsOwn host name =
    (name ≡ host)
    ⊎ ((label : Text) × (is_label label ≡ true) × (name ≡ label ++ (codes "." ++ host)))
    ⊎ ((prefix : Text) × (label_chars prefix ≡ true) × (name ≡ prefix ++ host))

route_host_route :
    (route host name : Text)
    → route_host route host ≡ ok name
    → (r : Route) × (parse_route route ≡ ok r) × (name ≡ name_of host r)
unfolding route_host
route_host_route route host name h = elim (Result-cases (parse_route route)) [
  | inl (r, found) ↦ (r, found, ground arith)
  | inr (e, failed) ↦ absurd (ground arith)
]

-- A module cannot get a name outside its own.
pub route_host-IsOwn : (route host name : Text) → route_host route host ≡ ok name → IsOwn host name
route_host-IsOwn route host name h =
    let (r, found, e) = route_host_route route host name h in
    own r e (print_route-parse_route route r found).1
  where
    own : (r : Route) → name ≡ name_of host r → IsRoute r → IsOwn host name
    own self e k = inl e
    own (child label) e k = inr (inl (label, k, e))
    own (sibling prefix) e k = inr (inr (prefix, k, e))
